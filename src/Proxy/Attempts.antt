-- ===== src/Proxy/Attempts.antt =====
-- The attempts at one test case come to an end: three retries and one forced run at most.
use coresight_trace.Base.{
  ℕ, zero, suc, ◌+◌, ◌-◌, ◌≤◌, ◌<◌, ◌≡◌, ◌≢◌, refl, Bool, true, false, ◌&&◌, List, [], ◌∷◌,
  if◌then◌else◌, Bool-cases, inl, inr, arith,
}
use coresight_trace.FreqGov.Governor.{FreqMode, Governor, max_repetition_num, freq_gov_should_retry}
use coresight_trace.Proxy.State.{
  Wait, is_suspended, Proxy, Answer, value, negative, fatal, out_of_fuel, Cmd, pure, and_then,
  ◌>>=◌, gets, modify, check, check_with,
}
use coresight_trace.Proxy.Child.{
  read_pid, fork_fresh_child, start_and_resume, wait_until, wait_for_child_and_stop_trace,
  retry_child, count_exec,
}
use coresight_trace.Proxy.TestCase.{forced_due, next_attempt, attempt, attempts}

-- From any state the command has the fuel it needs, and asks for `n` more children at most.
record Within {A : Type 0} (n : ℕ) (m : Cmd A) : Type 0 where
  ends : (s : Proxy) → (m s).0 ≢ out_of_fuel
  forks_le : (s : Proxy) → (m s).1.forks ≤ s.forks + n

module _ {A B : Type 0} where
  and_then-Within :
      (n : ℕ) (r : Answer A) (t : Proxy) (k : A → Cmd B)
      → r ≢ out_of_fuel
      → ((a : A) → r ≡ value a → Within n (k a))
      → ((and_then r t k).0 ≢ out_of_fuel) × ((and_then r t k).1.forks ≤ t.forks + n)
  and_then-Within n (value a) t k e w = ((w a refl).ends t, (w a refl).forks_le t)
  and_then-Within n negative t k e w = (λ x. cc, omega arith)
  and_then-Within n fatal t k e w = (λ x. cc, omega arith)
  and_then-Within n out_of_fuel t k e w = absurd (e refl)

  -- `i` children by the first command and `n` by the rest.
  Within-bind :
      (i n total : ℕ) (m : Cmd A) (k : A → Cmd B)
      → i + n ≤ total
      → Within i m
      → ((a : A) → Within n (k a))
      → Within total (m >>= k)
  unfolding ◌>>=◌
  Within-bind i n total m k room wm wk = record {
    ends = λ s. (and_then-Within n (m s).0 (m s).1 k (wm.ends s) (λ a _. wk a)).0;
    forks_le = λ s.
        let first = wm.forks_le s in
        let rest = (and_then-Within n (m s).0 (m s).1 k (wm.ends s) (λ a _. wk a)).1 in omega arith;
  }

  -- After `gets`, the value is known to be read from some state.
  Within-gets :
      (n : ℕ) (f : Proxy → A) (k : A → Cmd B)
      → ((s : Proxy) → Within n (k (f s)))
      → Within n (gets f >>= k)
  unfolding ◌>>=◌
  Within-gets n f k w = record { ends = λ s. (w s).ends s; forks_le = λ s. (w s).forks_le s }

  Within-free :
      (n : ℕ) (m : Cmd A) (k : A → Cmd B)
      → Within 0 m
      → ((a : A) → Within n (k a))
      → Within n (m >>= k)
  Within-free n m k wm wk = Within-bind 0 n n m k (omega arith) wm wk

Within-pure : {A : Type 0} (a : A) → Within 0 (pure a)
Within-pure a = record { ends = λ s x. cc; forks_le = λ s. omega arith }

Within-modify : (g : Proxy → Proxy) → ((s : Proxy) → (g s).forks ≡ s.forks) → Within 0 (modify g)
Within-modify g h = record { ends = λ s x. cc; forks_le = λ s. omega (arith, h s) }

check_with-Within :
    (answers : List Bool) (s : Proxy)
    → ((check_with answers s).0 ≢ out_of_fuel) × ((check_with answers s).1.forks ≤ s.forks + 0)
check_with-Within [] s = (λ x. cc, omega arith)
check_with-Within (true ∷ rest) s = (λ x. cc, omega arith)
check_with-Within (false ∷ rest) s = (λ x. cc, omega arith)

check-Within : Within 0 check
unfolding check
check-Within = record {
  ends = λ s. (check_with-Within s.answers s).0;
  forks_le = λ s. (check_with-Within s.answers s).1;
}

read_pid-Within :
    (ps : List ℕ) (s : Proxy)
    → ((read_pid ps s).0 ≢ out_of_fuel) × ((read_pid ps s).1.forks ≤ s.forks + 0)
read_pid-Within [] s = (λ x. cc, omega arith)
read_pid-Within (p ∷ ps) s = (λ x. cc, omega arith)

fork_fresh_child-Within : Within 1 fork_fresh_child
unfolding fork_fresh_child
fork_fresh_child-Within = Within-free 1 _ _ check-Within λ _.
    Within-bind 1 0 1 _ _ (omega arith) (record { ends = λ s x. cc; forks_le = λ s. omega arith })
      λ _. record {
        ends = λ s. (read_pid-Within s.pids s).0;
        forks_le = λ s. (read_pid-Within s.pids s).1;
      }

start_and_resume-Within : (child : ℕ) → Within 0 (start_and_resume child false)
unfolding start_and_resume
start_and_resume-Within child = Within-free 0 _ _ (Within-pure tt) λ _. check-Within

retry_child-Within : (mode : FreqMode) → Within 1 (retry_child mode)
unfolding retry_child
retry_child-Within mode = Within-bind 1 0 1 _ _ (omega arith) fork_fresh_child-Within λ child.
    Within-free 0 _ _ (Within-modify _ (λ s. refl))
      λ _. Within-free 0 _ _ (start_and_resume-Within child) λ _. Within-pure child

wait_until-Within :
    (ws : List Wait) (s : Proxy)
    → ((wait_until ws s).0 ≢ out_of_fuel) × ((wait_until ws s).1.forks ≤ s.forks + 0)
unfolding wait_until
wait_until-Within [] s = (λ x. cc, omega arith)
wait_until-Within (w ∷ ws) s = elim (Bool-cases (is_suspended w.code)) [
  | inl more ↦ rw more (wait_until-Within ws s)
  | inr done ↦ rw done (λ x. cc, omega arith)
]

wait-Within : Within 0 wait_for_child_and_stop_trace
unfolding wait_for_child_and_stop_trace
wait-Within =
    Within-free 0 _ _
      (record {
        ends = λ s. (wait_until-Within s.waits s).0;
        forks_le = λ s. (wait_until-Within s.waits s).1;
      })
      λ code. Within-free 0 _ _ check-Within λ _. Within-pure code

-- The runs that are left: the retries, the forced run, and the one that is on.
abbrev room : ℕ → Bool → ℕ
room reps forced = (max_repetition_num - reps) + (if forced then 0 else 1)

room_unforced :
    (reps : ℕ) (forced : Bool) → forced ≡ false → room reps forced ≡ max_repetition_num - reps + 1
room_unforced reps forced h = rw h refl

should_retry-reps :
    (mode : FreqMode) (overflowed : Bool) (reps : ℕ) (g : Governor)
    → freq_gov_should_retry mode overflowed reps g ≡ true
    → reps < max_repetition_num
unfolding freq_gov_should_retry
should_retry-reps mode overflowed reps g h = ground arith

forced_due-forced :
    (mode : FreqMode) (overflowed : Bool) (reps : ℕ) (forced : Bool) (g : Governor)
    → forced_due mode overflowed reps forced g ≡ true
    → forced ≡ false
forced_due-forced mode overflowed reps forced g h = ground arith

next_attempt-Within :
    (n : ℕ) (mode : FreqMode) (retry exhausted : Bool) (again last : Cmd (ℕ × Bool))
    (done : ℕ × Bool)
    → (retry ≡ true → (0 < n) × Within (n - 1) again)
    → (exhausted ≡ true → (0 < n) × Within (n - 1) last)
    → Within n (next_attempt mode retry exhausted again last done)
unfolding next_attempt
next_attempt-Within n mode true exhausted again last done wa wl =
    let (pos, w) = wa refl in
    Within-bind 1 (n - 1) n _ _ (omega arith) (retry_child-Within mode) λ _. w
next_attempt-Within n mode false true again last done wa wl =
    let (pos, w) = wl refl in
    Within-bind 1 (n - 1) n _ _ (omega arith)
      (Within-free 1 _ _ (Within-modify _ (λ s. refl)) λ _. retry_child-Within mode) λ _. w
next_attempt-Within n mode false false again last done wa wl = record {
  ends = λ s x. cc;
  forks_le = λ s. omega arith;
}

attempt-Within :
    (n : ℕ) (mode : FreqMode) (reps : ℕ) (forced : Bool) (again last : Cmd (ℕ × Bool))
    → (reps < max_repetition_num → (0 < n) × Within (n - 1) again)
    → (forced ≡ false → (0 < n) × Within (n - 1) last)
    → Within n (attempt mode reps forced again last)
unfolding attempt
attempt-Within n mode reps forced again last wa wl = Within-free n _ _ wait-Within λ code.
    Within-free n _ _ (Within-modify _ (λ s. refl)) λ _. Within-gets n _ _ λ s.
      let overflowed = s.decoding_on && s.did_overflow in
      Within-free n _ _ (Within-modify (count_exec overflowed) (λ s. refl)) λ _.
        Within-gets n _ _ λ t. Within-free n _ _ (Within-modify _ (λ s. refl)) λ _.
          Within-gets n _ _ λ u.
            next_attempt-Within n mode _ _ again last (code, overflowed)
              (λ granted. wa (should_retry-reps mode overflowed reps t.gov granted))
              (λ due. wl (forced_due-forced mode overflowed reps forced u.gov due))

attempts-Within :
    (fuel n : ℕ) (mode : FreqMode) (reps : ℕ) (forced : Bool)
    → room reps forced < fuel
    → room reps forced ≤ n
    → Within n (attempts fuel mode reps forced)
unfolding attempts
attempts-Within zero n mode reps forced h k = absurd (omega arith)
attempts-Within (suc fuel) n mode reps forced h k =
    let w =
      attempt-Within n mode reps forced (attempts fuel mode (suc reps) forced)
        (attempts fuel mode reps true)
        (λ low. (
          omega arith,
          attempts-Within fuel (n - 1) mode (suc reps) forced (omega arith) (omega arith),
        ))
        (λ unforced.
          let one = room_unforced reps forced unforced in
          (omega arith, attempts-Within fuel (n - 1) mode reps true (omega arith) (omega arith))) in
    record { ends = w.ends; forks_le = w.forks_le }

-- The attempts at one test case end: five runs are enough whatever the runs report, so no more than
-- four children are asked for besides the first.
pub attempts-end :
    (mode : FreqMode) (s : Proxy)
    → ((attempts 5 mode 0 false s).0 ≢ out_of_fuel)
      × ((attempts 5 mode 0 false s).1.forks ≤ s.forks + 4)
attempts-end mode s =
    let w = attempts-Within 5 4 mode 0 false (omega arith) (omega arith) in (w.ends s, w.forks_le s)
