-- ===== src/Quote/Accepted.antt =====
-- src/modules/ctp_gateway_cpp/src/quote_validator.h: a sequence of quotes of one day, each of which
-- was accepted after the one before.
use tyche_engine.Common.{ℕ, zero, suc, ◌≡◌, refl, arith, true, false, some, List, [], ◌∷◌, Bytes}
use tyche_engine.Common.Words.{ℤ, pos, negsuc}
use tyche_engine.Quote.{QuoteTick}
use tyche_engine.Quote.Validator.{
  Numbers, strncmp_same, int_lt, other_day, validate, is_timestamp_regression, before,
}

pub strncmp_same_refl : (n : ℕ) (a : Bytes) → strncmp_same n a a ≡ true
unfolding strncmp_same
strncmp_same_refl zero a = refl
strncmp_same_refl (suc n) [] = refl
strncmp_same_refl (suc n) (c ∷ a) = ground (arith, strncmp_same_refl n a)

-- `a ≤ b`
abbrev pub NotLess : ℤ → ℤ → Type 0
NotLess a b = int_lt b a ≡ false

NotLess-trans : (a b c : ℤ) → NotLess a b → NotLess b c → NotLess a c
unfolding int_lt
NotLess-trans (pos a) (pos b) (pos c) h g = ground arith
NotLess-trans (pos a) (pos b) (negsuc c) h g = cc
NotLess-trans (pos a) (negsuc b) c h g = cc
NotLess-trans (negsuc a) (pos b) (pos c) h g = refl
NotLess-trans (negsuc a) (pos b) (negsuc c) h g = cc
NotLess-trans (negsuc a) (negsuc b) (pos c) h g = refl
NotLess-trans (negsuc a) (negsuc b) (negsuc c) h g = ground arith

module _ {D : Type 0} (n : Numbers D) (day : Bytes) where
  -- A tick of the day with a price and a time that can be read.
  pub record OfDay (t : QuoteTick D) : Type 0 where
    pub time : ℤ × ℤ × ℤ
    pub dated : t.trading_day ≡ day
    pub priced : n.eq t.last_price n.zero_price ≡ false
    pub timed : n.scan t.update_time ≡ some time

  -- The quotes of the list, each accepted after the one before it, the first after `t`.
  abbrev pub Chain : QuoteTick D → List (QuoteTick D) → Type 0
  Chain t [] = Unit
  Chain t (u ∷ us) = (validate n u (some t) ≡ true) × OfDay u × Chain u us

  -- `u` has neither a lower volume nor an earlier time than `t`.
  abbrev pub NotBefore : QuoteTick D → QuoteTick D → Type 0
  NotBefore t u =
      NotLess t.volume u.volume
      × (before n (n.scan u.update_time) u.update_millisec (n.scan t.update_time) t.update_millisec
          ≡ false)

  abbrev pub NoneBefore : QuoteTick D → List (QuoteTick D) → Type 0
  NoneBefore t [] = Unit
  NoneBefore t (u ∷ us) = NotBefore t u × NoneBefore t us

  -- Each quote against each later one.
  abbrev pub InOrder : QuoteTick D → List (QuoteTick D) → Type 0
  InOrder t [] = Unit
  InOrder t (u ∷ us) = NoneBefore t (u ∷ us) × InOrder u us

  same_day : {t u : QuoteTick D} → OfDay t → OfDay u → other_day u t ≡ false
  unfolding other_day
  same_day {t} {u} o p = rw (p.dated, o.dated) (ground (arith, strncmp_same_refl 9 day))

  validate-NotBefore :
      {t u : QuoteTick D} → OfDay t → OfDay u → validate n u (some t) ≡ true → NotBefore t u
  unfolding validate is_timestamp_regression
  validate-NotBefore {t} {u} o p h = ground (arith, same_day o p, o.priced)

  NotBefore-trans :
      {t u v : QuoteTick D}
      → OfDay t
      → OfDay u
      → OfDay v
      → NotBefore t u
      → NotBefore u v
      → NotBefore t v
  NotBefore-trans {t} {u} {v} o p q (a, b) (c, d) =
      (NotLess-trans t.volume u.volume v.volume a c, ground (arith, o.timed, p.timed, q.timed))

  abbrev AllOfDay : List (QuoteTick D) → Type 0
  AllOfDay [] = Unit
  AllOfDay (u ∷ us) = OfDay u × AllOfDay us

  Chain-days : (t : QuoteTick D) (us : List (QuoteTick D)) → Chain t us → AllOfDay us
  Chain-days t [] c = tt
  Chain-days t (u ∷ us) (e, p, c) = (p, Chain-days u us c)

  NoneBefore-trans :
      {t u : QuoteTick D}
      → OfDay t
      → OfDay u
      → NotBefore t u
      → (vs : List (QuoteTick D)) → AllOfDay vs
      → NoneBefore u vs
      → NoneBefore t vs
  NoneBefore-trans o p a [] ds h = tt
  NoneBefore-trans o p a (v ∷ vs) (q, ds) (b, h) =
      (NotBefore-trans o p q a b, NoneBefore-trans o p a vs ds h)

  first_order : (t : QuoteTick D) (us : List (QuoteTick D)) → InOrder t us → NoneBefore t us
  first_order t [] h = tt
  first_order t (u ∷ us) h = h.0

  -- In a sequence of quotes of one day, with prices and with times that can be read, each of which
  -- was accepted after the one before it: no quote has an earlier time or a lower volume than any
  -- quote before it.
  pub validate-InOrder :
      (t : QuoteTick D) (us : List (QuoteTick D)) → OfDay t → Chain t us → InOrder t us
  validate-InOrder t [] o c = tt
  validate-InOrder t (u ∷ us) o (e, p, c) =
      let later = validate-InOrder u us p c in
      let a = validate-NotBefore o p e in
      ((a, NoneBefore-trans o p a us (Chain-days u us c) (first_order u us later)), later)
