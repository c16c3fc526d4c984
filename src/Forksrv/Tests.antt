-- ===== src/Forksrv/Tests.antt =====
-- The fork server at one request, and a preload list.
use coresight_trace.Base.{ℕ, true, ◌≡◌, refl, false, some, List, [], ◌∷◌, ◌++◌, arith}
use coresight_trace.Forksrv.Server.{◌>>=◌, write, wait, try_fork, relay, answer, serve}
use coresight_trace.Forksrv.Samples.{server, served}
use coresight_trace.Forksrv.Exchange.{Answers, serve-Answers}
use coresight_trace.Forksrv.Scrub.{remove_all, scrub_preload}
use coresight_trace.Forksrv.Clean.{names, scrub_preload-clean}

serve-Answers_example :
    (ms : List ℕ) × (served.sent ≡ server.sent ++ ms) × Answers 77 server.waits ms served.waits
unfolding serve ◌>>=◌ write wait try_fork relay answer
serve-Answers_example = serve-Answers 1 77 [] server served (omega arith) refl refl

-- A child that has ended before it stopped: one message.
ended_early : (serve (record server { waits = some 256 ∷ [] })).1.sent ≡ 0 ∷ 256 ∷ []
unfolding serve ◌>>=◌ write wait try_fork relay answer
ended_early = refl

scrub_preload-clean_example :
    names
      (scrub_preload true (some (97 ∷ 58 ∷ 47 ∷ 47 ∷ 102 ∷ 102 ∷ [])) (some (47 ∷ 102 ∷ [])))
      (47 ∷ 102 ∷ [])
    ≡ false
scrub_preload-clean_example =
    scrub_preload-clean (some (97 ∷ 58 ∷ 47 ∷ 47 ∷ 102 ∷ 102 ∷ [])) (47 ∷ 102 ∷ []) (omega arith)

scrubbed :
    scrub_preload true (some (97 ∷ 58 ∷ 47 ∷ 47 ∷ 102 ∷ 102 ∷ [])) (some (47 ∷ 102 ∷ []))
    ≡ some (97 ∷ 58 ∷ [])
unfolding scrub_preload remove_all
scrubbed = refl
