-- ===== src/Tests/Codec.antt =====
-- A message at a concrete input, in a format that stands for msgpack: instructions of two numbers
-- each for a machine that builds the object on a stack.
use tyche_engine.Common.{
  ℕ, ◌≡◌, refl, ap, get_or, length, ◌∙◌, arith, true, false, Option, none, some, List, [], ◌∷◌,
  Bytes, codes, inl,
}
use tyche_engine.Common.Words.{pos, negsuc}
use tyche_engine.Types.{MessageType}
use tyche_engine.Wire.{
  end, field, Object, Objects, Pairs, nil, boolean, positive, negative, floating, str, map, array,
  extended, done, also, no_pair, pair, Msgpack, WireMessage, serialize, table, int, names, double,
}
use tyche_engine.Wire.Unpack.{deserialize}
use tyche_engine.Wire.Plain.{PlainFields}
use tyche_engine.Wire.RoundTrip.{Returns, deserialize-serialize}

pub data Item : Type 0 where
  value : Object ℕ → Item
  values : Objects ℕ → Item
  pairs : Pairs ℕ → Item
  letters : Bytes → Item

abbrev close_text : List Item → List Item
close_text (letters s ∷ st) = value (str s) ∷ st
close_text other = []

abbrev close_map : List Item → List Item
close_map (pairs ps ∷ st) = value (map ps) ∷ st
close_map other = []

abbrev close_array : List Item → List Item
close_array (values os ∷ st) = value (array os) ∷ st
close_array other = []

abbrev add_value : List Item → List Item
add_value (value o ∷ values os ∷ st) = values (also o os) ∷ st
add_value other = []

abbrev add_pair : List Item → List Item
add_pair (value k ∷ value o ∷ pairs ps ∷ st) = pairs (pair k o ps) ∷ st
add_pair other = []

abbrev add_letter : ℕ → List Item → List Item
add_letter n (letters s ∷ st) = letters (n ∷ s) ∷ st
add_letter n other = []

abbrev instructions : List (ℕ → List Item → List Item)
instructions =
    (λ n st. value nil ∷ st)
    ∷ (λ n st. value (boolean true) ∷ st)
    ∷ (λ n st. value (boolean false) ∷ st)
    ∷ (λ n st. value (positive n) ∷ st)
    ∷ (λ n st. value (negative n) ∷ st)
    ∷ (λ n st. value (floating n) ∷ st)
    ∷ (λ n st. close_text st)
    ∷ (λ n st. close_map st)
    ∷ (λ n st. close_array st)
    ∷ (λ n st. value extended ∷ st)
    ∷ (λ n st. values done ∷ st)
    ∷ (λ n st. add_value st)
    ∷ (λ n st. pairs no_pair ∷ st)
    ∷ (λ n st. add_pair st)
    ∷ (λ n st. letters [] ∷ st)
    ∷ add_letter
    ∷ []

abbrev pushed : ℕ → ℕ → List Item → List Item
pushed op n st = get_or instructions op (λ m t. []) n st

unfoldable pub run : Bytes → List Item → List Item
run [] st = st
run (op ∷ []) st = []
run (op ∷ n ∷ rest) st = run rest (pushed op n st)

abbrev pub result : List Item → Option (Object ℕ)
result (value o ∷ []) = some o
result other = none

abbrev code_letters : Bytes → Bytes → Bytes
code_letters [] rest = 14 ∷ 0 ∷ rest
code_letters (x ∷ xs) rest = code_letters xs (15 ∷ x ∷ rest)

unfoldable mutual
  pub code : Object ℕ → Bytes → Bytes
  code nil rest = 0 ∷ 0 ∷ rest
  code (boolean true) rest = 1 ∷ 0 ∷ rest
  code (boolean false) rest = 2 ∷ 0 ∷ rest
  code (positive n) rest = 3 ∷ n ∷ rest
  code (negative n) rest = 4 ∷ n ∷ rest
  code (floating n) rest = 5 ∷ n ∷ rest
  code (str s) rest = code_letters s (6 ∷ 0 ∷ rest)
  code (map ps) rest = code_pairs ps (7 ∷ 0 ∷ rest)
  code (array os) rest = code_values os (8 ∷ 0 ∷ rest)
  code extended rest = 9 ∷ 0 ∷ rest

  code_values : Objects ℕ → Bytes → Bytes
  code_values done rest = 10 ∷ 0 ∷ rest
  code_values (also o os) rest = code_values os (code o (11 ∷ 0 ∷ rest))

  code_pairs : Pairs ℕ → Bytes → Bytes
  code_pairs no_pair rest = 12 ∷ 0 ∷ rest
  code_pairs (pair k o ps) rest = code_pairs ps (code o (code k (13 ∷ 0 ∷ rest)))

run-code_letters :
    (s rest : Bytes) (st : List Item) → run (code_letters s rest) st ≡ run rest (letters s ∷ st)
unfolding run
run-code_letters [] rest st = refl
run-code_letters (x ∷ xs) rest st = run-code_letters xs (15 ∷ x ∷ rest) st

mutual
  unfolding run code code_values code_pairs

  run-code :
      (o : Object ℕ) (rest : Bytes) (st : List Item)
      → run (code o rest) st ≡ run rest (value o ∷ st)
  run-code nil rest st = refl
  run-code (boolean true) rest st = refl
  run-code (boolean false) rest st = refl
  run-code (positive n) rest st = refl
  run-code (negative n) rest st = refl
  run-code (floating n) rest st = refl
  run-code (str s) rest st = run-code_letters s (6 ∷ 0 ∷ rest) st
  run-code (map ps) rest st = run-code_pairs ps (7 ∷ 0 ∷ rest) st
  run-code (array os) rest st = run-code_values os (8 ∷ 0 ∷ rest) st
  run-code extended rest st = refl

  run-code_values :
      (os : Objects ℕ) (rest : Bytes) (st : List Item)
      → run (code_values os rest) st ≡ run rest (values os ∷ st)
  run-code_values done rest st = refl
  run-code_values (also o os) rest st =
      run-code_values os (code o (11 ∷ 0 ∷ rest)) st ∙ run-code o (11 ∷ 0 ∷ rest) (values os ∷ st)

  run-code_pairs :
      (ps : Pairs ℕ) (rest : Bytes) (st : List Item)
      → run (code_pairs ps rest) st ≡ run rest (pairs ps ∷ st)
  run-code_pairs no_pair rest st = refl
  run-code_pairs (pair k o ps) rest st =
      run-code_pairs ps (code o (code k (13 ∷ 0 ∷ rest))) st
      ∙ run-code o (code k (13 ∷ 0 ∷ rest)) (pairs ps ∷ st)
      ∙ run-code k (13 ∷ 0 ∷ rest) (value o ∷ pairs ps ∷ st)

-- Whole numbers stand for both kinds of floating-point numbers.
abbrev pub stack_code : Msgpack ℕ ℕ
stack_code = record {
  pack_double = floating;
  encode = λ o. code o [];
  decode = λ bs. result (run bs []);
  to_double = λ f. f;
  to_float = λ d. d;
  double_of = λ n. n;
  float_of = λ n. n;
}

pub decode-encode : (o : Object ℕ) → stack_code.decode (stack_code.encode o) ≡ some o
unfolding run
decode-encode o = ap result (run-code o [] [])

abbrev order_message : WireMessage ℕ ℕ
order_message = record {
  msg_type = MessageType.response;
  sender = codes "gateway";
  event = codes "order_filled";
  payload = field (codes "price") (double 12) (
      field (codes "detail") (table (field (codes "volume") (int (negsuc 2)) end))
        (field (codes "legs") (names (codes "a" ∷ codes "b" ∷ [])) end));
  recipient = some (codes "trader");
  durability = pos 2;
  timestamp = some 99;
  correlation_id = none;
  wait_timeout = some 5;
  run_timeout = none;
}

order_message-Returns : Returns stack_code order_message
unfolding PlainFields
order_message-Returns = record {
  plain = (
    refl,
    (λ e. omega (arith, ap length e), (λ e. omega (arith, ap length e), tt)),
    ((omega arith, tt, tt), (λ e. omega (arith, ap length e), tt), (tt, tt, tt)),
  );
  durable = omega arith;
  stamped = inl refl;
  waiting = inl (refl, refl);
  running = tt;
}

deserialize-serialize_example :
    deserialize stack_code (serialize stack_code order_message) ≡ some order_message
deserialize-serialize_example =
    deserialize-serialize stack_code order_message decode-encode order_message-Returns
