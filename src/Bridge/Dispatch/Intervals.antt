-- ===== src/Bridge/Dispatch/Intervals.antt =====
-- Intervals between publishes, and the timer that keeps them
-- (apis/miot-bridge-api/src/services/NotificationDispatchService.ts).
use homelab_apps.Prelude.{ℕ, ◌+◌, ◌≤◌, ◌≡◌, false, Option, none, some, List, [], ◌∷◌, arith, ltb}
use homelab_apps.Bridge.Dispatch.{Settings, interval, max_timeout, timeout, delay_of}

-- An interval has passed since the last publish or reconnect.
abbrev pub Elapsed : ℕ → ℕ → Option ℕ → Type 0
Elapsed i now none = Unit
Elapsed i now (some last) = last + i ≤ now

-- The timer is not due before an interval has passed.
abbrev pub Due : ℕ → Option ℕ → Option ℕ → Type 0
Due i none last = Unit
Due i (some due) last = Elapsed i due last

abbrev pub LastBy : ℕ → Option ℕ → Type 0
LastBy now none = Unit
LastBy now (some last) = last ≤ now

module _ {Q : Type 0} where
  -- No publish is later than the last instant noted.
  abbrev pub SentBy : Option ℕ → List (ℕ × Q) → Type 0
  SentBy last [] = Unit
  SentBy none ((t, q) ∷ sent) = ⊥
  SentBy (some last) ((t, q) ∷ sent) = t ≤ last

  abbrev pub After : ℕ → ℕ → List (ℕ × Q) → Type 0
  After i now [] = Unit
  After i now ((t, q) ∷ sent) = t + i ≤ now

  -- Two publishes that follow one another are an interval apart.
  abbrev pub Paced : ℕ → List (ℕ × Q) → Type 0
  Paced i [] = Unit
  Paced i ((t, q) ∷ sent) = After i t sent × Paced i sent

  pub After-last :
      (i now : ℕ) (last : Option ℕ) (sent : List (ℕ × Q))
      → Elapsed i now last
      → SentBy last sent
      → After i now sent
  After-last i now last [] e b = tt
  After-last i now none ((t, q) ∷ sent) e b = absurd b
  After-last i now (some last) ((t, q) ∷ sent) e b = omega arith

pub Elapsed-at-Due :
    (i now due : ℕ) (timer last : Option ℕ)
    → timer ≡ some due
    → due ≤ now
    → Due i timer last
    → Elapsed i now last
Elapsed-at-Due i now due none last armed le p = cc
Elapsed-at-Due i now due (some d) none armed le p = tt
Elapsed-at-Due i now due (some d) (some l) armed le p = ground arith

module _ {Q : Type 0} where
  pub SentBy-now :
      (t now : ℕ) (last : Option ℕ) (sent : List (ℕ × Q))
      → t ≤ now
      → LastBy t last
      → SentBy last sent
      → SentBy (some now) sent
  SentBy-now t now last [] le b h = tt
  SentBy-now t now none ((u, q) ∷ sent) le b h = absurd h
  SentBy-now t now (some l) ((u, q) ∷ sent) le b h = omega arith

module _ (s : Settings) where
  pub Elapsed-without_delay :
      (now : ℕ) (last : Option ℕ)
      → ltb 0 (delay_of s last now) ≡ false
      → Elapsed (interval s) now last
  unfolding delay_of
  Elapsed-without_delay now none h = tt
  Elapsed-without_delay now (some last) h = ground arith

  pub Due-after_timeout :
      (now : ℕ) (last : Option ℕ)
      → interval s ≤ max_timeout
      → LastBy now last
      → Due (interval s) (some (now + timeout (delay_of s last now))) last
  unfolding delay_of timeout
  Due-after_timeout now none fits b = tt
  Due-after_timeout now (some last) fits b = ground arith

pub LastBy-later : (t now : ℕ) (last : Option ℕ) → t ≤ now → LastBy t last → LastBy now last
LastBy-later t now none le b = tt
LastBy-later t now (some last) le b = omega arith
