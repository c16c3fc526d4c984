-- ===== src/Forksrv/Served.antt =====
-- A request that the fork server serves to its end.
use mathlib.Core.Path.{subst}
use mathlib.Core.List.{append_assoc}
use coresight_trace.Base.{ℕ, ◌<◌, ◌≡◌, refl, sym, ap, ◌∙◌, Bool, true, Option, List, [], ◌∷◌, ◌++◌}
use coresight_trace.Proxy.State.{is_suspended}
use coresight_trace.Forksrv.Server.{
  child, Server, value, ◌>>=◌, write_to, write, wait, relay, answer, serve,
}
use coresight_trace.Forksrv.Exchange.{Statuses, waits_for, agains, try_fork-child}

-- A write for each message, before what else there is.
abbrev pub writes_for : List ℕ → List Bool → List Bool
writes_for [] oks = oks
writes_for (m ∷ ms) oks = true ∷ writes_for ms oks

write-served :
    (m code : ℕ) (oks : List Bool) (s : Server)
    → s.writes ≡ true ∷ oks
    → write m code s ≡ (value tt, record s { writes = oks; sent = s.sent ++ (m ∷ []) })
unfolding write
write-served m code oks s e =
    subst
      (λ ws.
        write_to ws m code s ≡ (value tt, record s { writes = oks; sent = s.sent ++ (m ∷ []) }))
      (sym e) refl

-- The server after these messages.
abbrev pub after_messages : List ℕ → List (Option ℕ) → List Bool → Server → Server
after_messages ms more oks s = record s { sent = s.sent ++ ms; waits = more; writes = oks }

after_messages-cons :
    (m : ℕ) (ms : List ℕ) (more : List (Option ℕ)) (oks : List Bool) (s : Server)
    → after_messages ms more oks (record s { sent = s.sent ++ (m ∷ []) })
      ≡ after_messages (m ∷ ms) more oks s
after_messages-cons m ms more oks s =
    ap (λ l. record s { sent = l; waits = more; writes = oks }) (append_assoc s.sent (m ∷ []) ms)

relay-served :
    (sts : List ℕ) (more : List (Option ℕ)) (oks : List Bool) (s : Server)
    → Statuses sts
    → s.writes ≡ writes_for sts oks
    → relay (waits_for sts more) s ≡ (value tt, after_messages sts more oks s)
unfolding relay ◌>>=◌
relay-served [] more oks s h e = absurd h
relay-served (st ∷ []) more oks s h e =
    rw (h, write-served st 9 oks (record s { waits = more }) e) refl
relay-served (st ∷ (next ∷ sts)) more oks s h e =
    rw
      (
        h.0,
        write-served st 9 (writes_for (next ∷ sts) oks)
            (record s { waits = waits_for (next ∷ sts) more }) e,
      )
      (relay-served (next ∷ sts) more oks
          (record s {
            sent = s.sent ++ (st ∷ []);
            waits = waits_for (next ∷ sts) more;
            writes = writes_for (next ∷ sts) oks;
          })
          h.1 refl
        ∙ ap (λ t. (value tt, t)) (after_messages-cons st (next ∷ sts) more oks s))

answer-served :
    (pid stop : ℕ) (sts : List ℕ) (more : List (Option ℕ)) (oks : List Bool) (s : Server)
    → is_suspended stop ≡ true
    → Statuses sts
    → s.waits ≡ waits_for sts more
    → s.writes ≡ writes_for (pid ∷ sts) oks
    → answer pid stop s ≡ (value tt, after_messages (pid ∷ sts) more oks s)
unfolding answer ◌>>=◌
answer-served pid stop sts more oks s stopped h ws e =
    rw (stopped, write-served pid 5 (writes_for sts oks) s e, ws)
      (relay-served sts more oks
          (record s {
            sent = s.sent ++ (pid ∷ []);
            waits = waits_for sts more;
            writes = writes_for sts oks;
          })
          h refl
        ∙ ap (λ t. (value tt, t)) (after_messages-cons pid sts more oks s))

-- A server before a request: a fork succeeds within ten tries, the child stops, and then has these
-- statuses; and every call on the way succeeds.
pub record IsServing (pid : ℕ) (sts : List ℕ) (s t : Server) : Type 0 where
  pub tries : ℕ
  pub few : tries < 10
  pub forks : s.forks ≡ agains tries (child pid ∷ t.forks)
  pub reads : s.reads ≡ true ∷ t.reads
  pub stop : ℕ
  pub stopped : is_suspended stop ≡ true
  pub waits : s.waits ≡ waits_for (stop ∷ sts) t.waits
  pub writes : s.writes ≡ writes_for (pid ∷ sts) t.writes

pub serve-served :
    (pid : ℕ) (sts : List ℕ) (s t : Server)
    → IsServing pid sts s t
    → Statuses sts
    → serve s ≡ (value tt, record t { sent = s.sent ++ (pid ∷ sts) })
unfolding serve ◌>>=◌ wait
serve-served pid sts s t g h =
    rw
      (
        g.reads,
        try_fork-child 10 g.tries pid t.forks (record s { reads = t.reads }) g.few g.forks,
        g.waits,
      )
      (answer-served pid g.stop sts t.waits t.writes
        (record s { reads = t.reads; forks = t.forks; waits = waits_for sts t.waits }) g.stopped h
        refl g.writes)
