-- ===== src/Tests/Letters.antt =====
-- Two dead letters of one day, read back by topic.
use tyche_engine.Common.{ℕ, ◌≡◌, true, some, List, [], ◌∷◌, codes}
use tyche_engine.Common.Slices.{take}
use tyche_engine.Wire.{blank_message, field, end, int}
use tyche_engine.Common.Words.{negsuc}
use tyche_engine.DeadLetter.{Printer, digits}
use tyche_engine.DeadLetter.Printable.{digits-Printable}
use tyche_engine.DeadLetter.Records.{PrintsNumbers}
use tyche_engine.DeadLetter.Files.{replay, before}
use tyche_engine.DeadLetter.Lines.{Letter, persist_all, records, matching, replay_lem}

-- Whole numbers in place of doubles and floats.
abbrev whole_numbers : Printer ℕ ℕ
whole_numbers = record {
  finite = λ d. true;
  finite_float = λ f. true;
  show_double = λ d. digits d d;
  show_float = λ f. digits f f;
  show_float_17 = λ f. digits f f;
}

whole_numbers-PrintsNumbers : PrintsNumbers whole_numbers
whole_numbers-PrintsNumbers = record {
  doubles = λ d. digits-Printable d d;
  floats = λ f. digits-Printable f f;
  floats_17 = λ f. digits-Printable f f;
}

abbrev two_letters : List (Letter ℕ ℕ)
two_letters =
    record {
      now = 5;
      topic = codes "fills";
      reason = codes "full";
      message = record blank_message {
        sender = 34 ∷ 10 ∷ [];
        payload = field (codes "volume") (int (negsuc 2)) end;
      };
    }
    ∷ record { now = 6; topic = codes "ticks"; reason = codes "no queue"; message = blank_message }
    ∷ []

replay_lem_example :
    replay
      (some (codes "ticks"))
      (some (codes "2024-01-01"))
      10
      (persist_all whole_numbers (codes "2024-05-06") two_letters [])
    ≡ take 10 (matching (some (codes "ticks")) (records whole_numbers two_letters))
unfolding before
replay_lem_example =
    replay_lem whole_numbers (some (codes "ticks")) (some (codes "2024-01-01")) 10
      (codes "2024-05-06") two_letters whole_numbers-PrintsNumbers
