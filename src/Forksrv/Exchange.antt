-- ===== src/Forksrv/Exchange.antt =====
-- What the fork server and the proxy say to one another for one request.
use mathlib.Core.Path.{subst}
use mathlib.Core.List.{append_assoc, append-nil}
use coresight_trace.Base.{
  ℕ, zero, suc, ◌<◌, ◌≡◌, refl, sym, ap, ◌∙◌, Bool, true, false, Option, none, some, List, [], ◌∷◌,
  ◌++◌, Bool-cases, inl, inr, arith,
}
use coresight_trace.Proxy.State.{is_suspended}
use coresight_trace.Forksrv.Server.{
  Fork, child, again, Server, Answer, value, exits, Srv, pure, and_then, ◌>>=◌, ◌>>◌, read_from,
  write_to, write, wait_from, wait, fork_from, retry, try_fork, pid_of, relay, answer, serve,
}

-- Statuses that a proxy can read to the end: all but the last are suspensions, and the last is not.
abbrev pub Statuses : List ℕ → Type 0
Statuses [] = ⊥
Statuses (st ∷ []) = is_suspended st ≡ false
Statuses (st ∷ (next ∷ more)) = (is_suspended st ≡ true) × Statuses (next ∷ more)

-- The waits that end with these statuses, before what else there is.
abbrev pub waits_for : List ℕ → List (Option ℕ) → List (Option ℕ)
waits_for [] more = more
waits_for (st ∷ sts) more = some st ∷ waits_for sts more

abbrev pub Waits : Type 0
Waits = List (Option ℕ)

-- What a request is answered with, of what waitpid returns before and after.
pub data Answers (pid : ℕ) (before : Waits) (ms : List ℕ) (after : Waits) : Type 0 where
  full :
      (stop : ℕ) (sts : List ℕ)
      → ms ≡ pid ∷ sts
      → is_suspended stop ≡ true
      → Statuses sts
      → before ≡ waits_for (stop ∷ sts) after
      → Answers pid before ms after
  early :
      (st : ℕ)
      → ms ≡ st ∷ []
      → is_suspended st ≡ false
      → before ≡ some st ∷ after
      → Answers pid before ms after

-- What is written by a command that does not exit, and the waits that it leaves.
abbrev pub Said :
    {A : Type 0} → (List ℕ → List (Option ℕ) → Type 0) → List ℕ → Answer A × Server → Type 0
Said P old (value a, t) = (ms : List ℕ) × (t.sent ≡ old ++ ms) × P ms t.waits
Said P old (exits code, t) = Unit

Said-after :
    {A : Type 0} (P Q : List ℕ → List (Option ℕ) → Type 0) (old : List ℕ) (m : ℕ)
    (r : Answer A × Server)
    → ((ms : List ℕ) (left : List (Option ℕ)) → P ms left → Q (m ∷ ms) left)
    → Said P (old ++ (m ∷ [])) r
    → Said Q old r
Said-after P Q old m (value a, t) k (ms, e, p) =
    (m ∷ ms, e ∙ append_assoc old (m ∷ []) ms, k ms t.waits p)
Said-after P Q old m (exits code, t) k h = tt

-- A write, and what is said after it.
write-Said :
    {A : Type 0} (P Q : List ℕ → List (Option ℕ) → Type 0) (m code : ℕ) (n : Srv A) (s : Server)
    → ((ms : List ℕ) (left : List (Option ℕ)) → P ms left → Q (m ∷ ms) left)
    → ((t : Server) → t.waits ≡ s.waits → Said P t.sent (n t))
    → Said Q s.sent ((write m code >> n) s)
unfolding write ◌>>=◌
write-Said P Q m code n s k said = by_writes s.writes
  where
    by_writes : (ws : List Bool) → Said Q s.sent (and_then (write_to ws m code s) (λ _. n))
    by_writes [] = tt
    by_writes (true ∷ ws) =
        Said-after P Q s.sent m (n (record s { writes = ws; sent = s.sent ++ (m ∷ []) })) k
          (said (record s { writes = ws; sent = s.sent ++ (m ∷ []) }) refl)
    by_writes (false ∷ ws) = tt

pure-Said :
    (ws : List (Option ℕ)) (s : Server)
    → s.waits ≡ ws
    → Said (λ ms left. (ms ≡ []) × (left ≡ ws)) s.sent (pure {A = Unit {0}} tt s)
pure-Said ws s e = ([], sym (append-nil s.sent), (refl, e))

-- The statuses are those that waitpid returns, in order.
abbrev Relayed : List (Option ℕ) → List ℕ → List (Option ℕ) → Type 0
Relayed ws ms left = Statuses ms × (ws ≡ waits_for ms left)

Statuses-cons : (st : ℕ) (ms : List ℕ) → is_suspended st ≡ true → Statuses ms → Statuses (st ∷ ms)
Statuses-cons st [] e h = absurd h
Statuses-cons st (m ∷ ms) e h = (e, h)

relay-Said : (ws : List (Option ℕ)) (s : Server) → Said (Relayed ws) s.sent (relay ws s)
unfolding relay
relay-Said [] s = tt
relay-Said (none ∷ ws) s = tt
relay-Said (some st ∷ ws) s = elim (Bool-cases (is_suspended st)) [
  | inl e ↦ rw e (
      write-Said (Relayed ws) (Relayed (some st ∷ ws)) st 9 (relay ws) (record s { waits = ws })
        (λ ms left h. (Statuses-cons st ms e h.0, ap (λ l. some st ∷ l) h.1))
        (λ t _. relay-Said ws t))
  | inr e ↦ rw e (
      write-Said (λ ms left. (ms ≡ []) × (left ≡ ws)) (Relayed (some st ∷ ws)) st 9 (pure tt)
        (record s { waits = ws }) (λ ms left h. rw (h.0, h.1) (e, refl))
        (λ t same. pure-Said ws t same))
]

last-Said :
    (Q : List ℕ → List (Option ℕ) → Type 0) (m code : ℕ) (s : Server)
    → Q (m ∷ []) s.waits
    → Said Q s.sent (write m code s)
unfolding write
last-Said Q m code s q = by_writes s.writes
  where
    by_writes : (ws : List Bool) → Said Q s.sent (write_to ws m code s)
    by_writes [] = tt
    by_writes (true ∷ ws) = (m ∷ [], refl, q)
    by_writes (false ∷ ws) = tt

answer-Said :
    (pid status : ℕ) (s : Server)
    → Said (Answers pid (some status ∷ s.waits)) s.sent (answer pid status s)
unfolding answer
answer-Said pid status s = elim (Bool-cases (is_suspended status)) [
  | inl e ↦ rw e (
      write-Said (Relayed s.waits) (Answers pid (some status ∷ s.waits)) pid 5
        (λ t. relay t.waits t) s
        (λ ms left h. full status ms refl e h.0 (ap (λ l. some status ∷ l) h.1))
        (λ t same.
          subst (λ ws. Said (Relayed ws) t.sent (relay t.waits t)) same (relay-Said t.waits t)))
  | inr e ↦
      rw e (last-Said (Answers pid (some status ∷ s.waits)) status 7 s (early status refl e refl))
]

-- The kernel says EAGAIN so many times.
abbrev pub agains : ℕ → List Fork → List Fork
agains zero fs = fs
agains (suc k) fs = again ∷ agains k fs

pub try_fork-child :
    (n k pid : ℕ) (fs : List Fork) (s : Server)
    → k < n
    → s.forks ≡ agains k (child pid ∷ fs)
    → try_fork n s ≡ (value (child pid), record s { forks = fs })
unfolding try_fork ◌>>=◌
try_fork-child zero k pid fs s lt e = absurd (omega arith)
try_fork-child (suc n) zero pid fs s lt e =
    subst
      (λ l.
        and_then (fork_from l s) (λ f. retry f (try_fork n))
        ≡ (value (child pid), record s { forks = fs }))
      (sym e) refl
try_fork-child (suc n) (suc k) pid fs s lt e =
    subst
      (λ l.
        and_then (fork_from l s) (λ f. retry f (try_fork n))
        ≡ (value (child pid), record s { forks = fs }))
      (sym e)
      (try_fork-child n k pid fs (record s { forks = agains k (child pid ∷ fs) }) (omega arith)
        refl)

serve-Said :
    (k pid : ℕ) (fs : List Fork) (s : Server)
    → k < 10
    → s.forks ≡ agains k (child pid ∷ fs)
    → Said (Answers pid s.waits) s.sent (serve s)
unfolding serve ◌>>=◌ wait
serve-Said k pid fs s lt e = by_reads s.reads
  where
    answered :
        (s' : Server) (ws : List (Option ℕ))
        → Said (Answers pid ws) s'.sent (and_then (wait_from ws 6 s') (λ status. answer pid status))
    answered s' [] = tt
    answered s' (none ∷ ws) = tt
    answered s' (some status ∷ ws) = answer-Said pid status (record s' { waits = ws })

    by_reads :
        (rs : List Bool)
        → Said (Answers pid s.waits) s.sent (
            and_then (read_from rs s) (λ _. λ t. and_then (try_fork 10 t) (λ f. λ u.
              and_then (pid_of f u) (λ p. λ v. and_then (wait 6 v) (λ status. answer p status)))))
    by_reads [] = tt
    by_reads (false ∷ rs) = tt
    by_reads (true ∷ rs) =
        rw (try_fork-child 10 k pid fs (record s { reads = rs }) lt e)
          (answered (record s { reads = rs; forks = fs }) s.waits)

Said-value :
    {A : Type 0} (P : List ℕ → List (Option ℕ) → Type 0) (old : List ℕ) (r : Answer A × Server)
    (a : A) (t : Server)
    → Said P old r
    → r ≡ (value a, t)
    → (ms : List ℕ) × (t.sent ≡ old ++ ms) × P ms t.waits
Said-value P old r a t h e = subst (λ q. Said P old q) e h

-- A request for which a fork succeeds, within ten tries of which the others are told EAGAIN, and which
-- does not end the server, is answered in one of two ways. If waitpid first says that the child has
-- stopped, with the PID of the child and then the statuses that waitpid returns, in order, all of
-- them up to the first that is not a suspension; if it first says anything else, with that status and
-- nothing else.
pub serve-Answers :
    (k pid : ℕ) (fs : List Fork) (s t : Server)
    → k < 10
    → s.forks ≡ agains k (child pid ∷ fs)
    → serve s ≡ (value tt, t)
    → (ms : List ℕ) × (t.sent ≡ s.sent ++ ms) × Answers pid s.waits ms t.waits
serve-Answers k pid fs s t lt e done =
    Said-value (Answers pid s.waits) s.sent (serve s) tt t (serve-Said k pid fs s lt e) done
