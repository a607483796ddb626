-- ===== src/Accounting/Workflow/Interleaved/Numbers.antt =====
-- The sequence numbers under which the interleaved workflow submits: flushes and credit updates draw them
-- from one counter, and may be under way at the same time.
use cloud_credit_system.Common.{
  ℕ, zero, suc, ◌+◌, ◌%◌, ◌≡◌, ◌≢◌, List, [], ◌∷◌, nat_key, length, All,
}
use cloud_credit_system.Common.Int.{u64_mod}
use cloud_credit_system.Accounting.Workflow.Interleaved.{Machine}

-- first + k, …, first + 1.
abbrev pub countdown : ℕ → ℕ → List ℕ
countdown first zero = []
countdown first (suc k) = (first + suc k) ∷ countdown first k

-- No number stands twice.
abbrev pub AllDistinct : List ℕ → Type 0
AllDistinct [] = Unit
AllDistinct (n ∷ ns) = All (λ m. m ≢ n) ns × AllDistinct ns

-- The counter and the numbers that were used, as long as the counter has not wrapped round.
pub record IsNumbered (first : ℕ) (m : Machine) : Type 0 where
  pub latest : m.state.flush_seq_no ≡ first + length m.numbers
  pub drawn : m.numbers ≡ countdown first (length m.numbers)

-- What a transition does to the counter: nothing, or one number is drawn.
pub data TakesNumber (m m' : Machine) : Type 0 where
  keeps : m'.state.flush_seq_no ≡ m.state.flush_seq_no → m'.numbers ≡ m.numbers → TakesNumber m m'
  draws :
      m'.state.flush_seq_no ≡ (m.state.flush_seq_no + 1) % u64_mod
      → m'.numbers ≡ m'.state.flush_seq_no ∷ m.numbers
      → TakesNumber m m'
