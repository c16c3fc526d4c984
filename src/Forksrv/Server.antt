-- ===== src/Forksrv/Server.antt =====
-- __cs_start_forkserver. What `read`, `fork`, `waitpid` and `write` return are supplies that are used
-- up; a supply that is empty fails. The child, which goes on with the program, is left out.
use coresight_trace.Base.{
  ℕ, zero, suc, Bool, true, false, Option, none, some, List, [], ◌∷◌, ◌++◌, if◌then◌else◌,
}
use coresight_trace.Proxy.State.{is_suspended}

pub data Fork : Type 0 where
  child : (pid : ℕ) → Fork
  again : Fork
  no_child : Fork

-- `sent` is what the proxy has been written, the oldest first, 4 bytes each.
pub record Server : Type 0 where
  pub sent : List ℕ
  pub reads : List Bool
  pub forks : List Fork
  pub waits : List (Option ℕ)
  pub writes : List Bool

pub data Answer (A : Type 0) : Type 0 where
  value : A → Answer A
  exits : (code : ℕ) → Answer A

abbrev pub Srv : Type 0 → Type 0
Srv A = Server → Answer A × Server

abbrev pub pure : {A : Type 0} → A → Srv A
pure a s = (value a, s)

abbrev pub exit : {A : Type 0} → ℕ → Srv A
exit code s = (exits code, s)

module _ {A B : Type 0} where
  abbrev pub and_then : Answer A × Server → (A → Srv B) → Answer B × Server
  and_then (value a, s) k = k a s
  and_then (exits code, s) k = (exits code, s)

  infixl 5 ◌>>=◌ ◌>>◌
  unfoldable pub ◌>>=◌ : Srv A → (A → Srv B) → Srv B
  (m >>= k) s = and_then (m s) k

  abbrev pub ◌>>◌ : Srv A → Srv B → Srv B
  m >> n = m >>= λ _. n

-- The read of a request, or the exit.
abbrev pub read_from : List Bool → Srv (Unit {0})
read_from [] s = (exits 1, s)
read_from (ok ∷ rest) s = (if ok then value tt else exits 1, record s { reads = rest })

abbrev pub write_to : List Bool → ℕ → ℕ → Srv (Unit {0})
write_to [] m code s = (exits code, s)
write_to (ok ∷ rest) m code s =
    if ok
    then (value tt, record s { writes = rest; sent = s.sent ++ (m ∷ []) })
    else (exits code, record s { writes = rest })

-- `if (write(...) != 4) _exit(code)`
unfoldable pub write : ℕ → ℕ → Srv (Unit {0})
write m code s = write_to s.writes m code s

abbrev pub wait_from : List (Option ℕ) → ℕ → Srv ℕ
wait_from [] code s = (exits code, s)
wait_from (none ∷ rest) code s = (exits code, record s { waits = rest })
wait_from (some status ∷ rest) code s = (value status, record s { waits = rest })

-- `if (waitpid(...) < 0) _exit(code)`
unfoldable pub wait : ℕ → Srv ℕ
wait code s = wait_from s.waits code s

abbrev pub fork_from : List Fork → Srv Fork
fork_from [] s = (value no_child, s)
fork_from (f ∷ rest) s = (value f, record s { forks = rest })

-- A try that the kernel answers with EAGAIN is followed by the next one.
abbrev pub retry : Fork → Srv Fork → Srv Fork
retry (child pid) next = pure (child pid)
retry again next = next
retry no_child next = pure no_child

unfoldable pub try_fork : ℕ → Srv Fork
try_fork zero = pure again
try_fork (suc n) = (λ s. fork_from s.forks s) >>= λ f. retry f (try_fork n)

abbrev pub pid_of : Fork → Srv ℕ
pid_of (child pid) = pure pid
pid_of again = exit 4
pid_of no_child = exit 4

-- The statuses of the child go to the proxy until one that is not a stop by SIGSTOP.
unfoldable pub relay : List (Option ℕ) → Srv (Unit {0})
relay [] s = (exits 8, s)
relay (none ∷ rest) s = (exits 8, record s { waits = rest })
relay (some status ∷ rest) s =
    let more = relay rest in
    (write status 9 >> (if is_suspended status then more else pure tt)) (record s { waits = rest })

-- The answer to a request: the PID of a child that has stopped, and its statuses; or the status of a
-- child that has ended before.
unfoldable pub answer : ℕ → ℕ → Srv (Unit {0})
answer pid status =
    if is_suspended status then write pid 5 >> (λ s. relay s.waits s) else write status 7

unfoldable pub serve : Srv (Unit {0})
serve = do
  λ s. read_from s.reads s
  f ← try_fork 10
  pid ← pid_of f
  status ← wait 6
  answer pid status

-- The loop, which only an exit ends; a request each.
unfoldable pub serve_all : List Bool → Srv (Unit {0})
serve_all [] = exit 1
serve_all (r ∷ requests) = serve >> serve_all requests

-- What __CS_PROXY and __CS_TRACE ask for.
pub data Mode : Type 0 where
  for_proxy for_trace plain : Mode

abbrev pub mode : (cs_proxy cs_trace : Bool) → Mode
mode true cs_trace = for_proxy
mode false true = for_trace
mode false false = plain

-- A first message of zeros says that the server runs; under cs-trace or by itself there is none.
unfoldable pub cs_start_forkserver : Mode → Srv (Unit {0})
cs_start_forkserver for_proxy = write 0 255 >> (λ s. serve_all s.reads s)
cs_start_forkserver for_trace = pure tt
cs_start_forkserver plain = pure tt
