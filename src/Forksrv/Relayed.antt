-- ===== src/Forksrv/Relayed.antt =====
-- The statuses that the fork server relays, read by the proxy.
use coresight_trace.Base.{ℕ, ◌≡◌, refl, List, [], ◌∷◌, ◌++◌}
use coresight_trace.Proxy.State
use coresight_trace.Proxy.State.{is_suspended, Wait, Proxy}
use coresight_trace.Proxy.Child.{wait_until}
use coresight_trace.Forksrv.Server.{Server, value, serve}
use coresight_trace.Forksrv.Exchange.{Statuses}
use coresight_trace.Forksrv.Served.{IsServing, serve-served}

abbrev pub codes : List Wait → List ℕ
codes [] = []
codes (w ∷ ws) = w.code ∷ codes ws

abbrev pub last_code : Wait → List Wait → ℕ
last_code w [] = w.code
last_code w (next ∷ ws) = last_code next ws

wait_until-Statuses :
    (w : Wait) (ws rest : List Wait) (p : Proxy)
    → Statuses (codes (w ∷ ws))
    → ((wait_until ((w ∷ ws) ++ rest) p).0 ≡ State.value (last_code w ws))
      × ((wait_until ((w ∷ ws) ++ rest) p).1.waits ≡ rest)
unfolding wait_until
wait_until-Statuses w [] rest p h = rw h (refl, refl)
wait_until-Statuses w (next ∷ ws) rest p h = rw h.0 (wait_until-Statuses next ws rest p h.1)

-- When every call on the way succeeds and the last status of the child, and no other, is not a
-- suspension, the fork server serves the request to its end, with the PID and these statuses as its
-- answer; and the proxy, which has read the PID, takes exactly these statuses off the pipe, whatever
-- follows them, and returns the last.
pub serve-wait_until :
    (pid : ℕ) (s t : Server) (w : Wait) (ws rest : List Wait) (p : Proxy)
    → IsServing pid (codes (w ∷ ws)) s t
    → Statuses (codes (w ∷ ws))
    → (serve s ≡ (value tt, record t { sent = s.sent ++ (pid ∷ codes (w ∷ ws)) }))
      × ((wait_until ((w ∷ ws) ++ rest) p).0 ≡ State.value (last_code w ws))
      × ((wait_until ((w ∷ ws) ++ rest) p).1.waits ≡ rest)
serve-wait_until pid s t w ws rest p serving h =
    let (last, left) = wait_until-Statuses w ws rest p h in
    (serve-served pid (codes (w ∷ ws)) s t serving h, last, left)
