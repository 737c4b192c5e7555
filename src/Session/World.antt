-- ===== src/Session/World.antt =====
-- What the session store and the service work on: the files of session/session_store.py and of
-- artifacts/artifact_store.py, the calls of trace/trace_writer.py, the set
-- `_active_event_keys` of a service, and the clock and the locks of the host. A method is an
-- `Action`; what it wrote stays written when it raises.
use sql_self_healing_agent.Prelude.{
  ℕ, ◌+◌, String, ◌==◌, ◌≡◌, refl, sym, subst, ap, Bool, Option, none, some, List, ◌∷◌, [], ◌++◌,
  if◌then◌else◌,
}
use sql_self_healing_agent.Core.{AgentExternalResult}
use sql_self_healing_agent.Agent.Models.{AgentRunState}
use sql_self_healing_agent.Repair.Models.{PostReflectionResult}
use sql_self_healing_agent.Session.Models.{RepairSession, RepairAttempt, ArtifactRef}

-- `SessionLockTimeout`, or another exception by the name of its type
pub data Failure : Type 0 where
  lock_timeout : Failure
  raised : String → Failure

pub data Result (A : Type 0) : Type 0 where
  ok : A → Result A
  err : Failure → Result A

-- A call of `TraceWriter.emit`, without its payload
pub record TraceCall : Type 0 where
  pub session_id : String
  pub event_type : String
  pub stage : String
  pub attempt_id : Option String

-- What is given to `save_json` and `save_json_ref`
pub data Saved : Type 0 where
  external_result : AgentExternalResult → Saved
  run_state : AgentRunState → Saved
  post_reflection : PostReflectionResult → Saved

pub record World : Type 0 where
  pub sessions : String → Option RepairSession
  pub attempts : String → String → Option RepairAttempt
  pub files : String → Option String
  pub active_event_keys : String → Bool
  pub trace : List TraceCall
  pub ticks : ℕ
  pub acquisitions : ℕ

abbrev pub Action : Type 0 → Type 0
Action A = World → Result A × World

module _ {A : Type 0} where
  abbrev pub pure : A → Action A
  pure a w = (ok a, w)

  abbrev pub raise : Failure → Action A
  raise e w = (err e, w)

  abbrev pub or_raise : Option A → Failure → Action A
  or_raise none e = raise e
  or_raise (some a) e = pure a

infixl 5 ◌>>=◌ ◌>>◌
abbrev pub ◌>>=◌ : {A B : Type 0} → Action A → (A → Action B) → Action B
◌>>=◌ m f w = let (r, w') = m w in elim r [ ok a ↦ f a w' | err e ↦ raise e w' ]

abbrev pub ◌>>◌ : {A B : Type 0} → Action A → Action B → Action B
m >> k = m >>= λ _. k

-- What follows a step that succeeded or raised
pub bind-ok :
    {A B : Type 0} (m : Action A) (f : A → Action B) {a : A} {w w' : World}
    → m w ≡ (ok a, w')
    → (m >>= f) w ≡ f a w'
bind-ok {B} m f e =
    ap
      (λ (p : Result _ × World). elim p.0 as (λ _. Result B × World) [
        | ok a ↦ f a p.1
        | err x ↦ raise x p.1
      ])
      e

pub bind-err :
    {A B : Type 0} (m : Action A) (f : A → Action B) {x : Failure} {w w' : World}
    → m w ≡ (err x, w')
    → (m >>= f) w ≡ (err x, w')
bind-err {B} m f e =
    ap
      (λ (p : Result _ × World). elim p.0 as (λ _. Result B × World) [
        | ok a ↦ f a p.1
        | err x ↦ raise x p.1
      ])
      e

-- What holds of every outcome of the second step, and of an exception, holds of both in order.
pub bind-rule :
    {A B : Type 0} (P : Result B × World → Type 0) (m : Action A) (f : A → Action B) (w : World)
    → ((a : A) (w' : World) → P (f a w'))
    → ((e : Failure) (w' : World) → P (err e, w'))
    → P ((m >>= f) w)
bind-rule {A} P m f w after failing = on (m w) refl
  where
    on : (p : Result A × World) → m w ≡ p → P ((m >>= f) w)
    on (ok a, w') e = subst P (sym (bind-ok m f e)) (after a w')
    on (err x, w') e = subst P (sym (bind-err m f e)) (failing x w')

-- `try m` with a handler
abbrev pub catch : {A : Type 0} → Action A → (Failure → Action A) → Action A
catch m f w = let (r, w') = m w in elim r [ ok a ↦ pure a w' | err e ↦ f e w' ]

-- What the program takes from its host and from the parts that are not modelled: `utc_now_iso` at
-- each tick of the clock, whether each acquisition of a lock comes in time, SHA-256 of UTF-8, uuid4,
-- the directory of the sessions, `Path(name).name`, `json.dumps` and the readers of JSON, and
-- PersistenceSanitizer.sanitize.
pub record Host : Type 0 where
  pub utc_now : ℕ → String
  pub lock_free : ℕ → Bool
  pub sha256 : List ℕ → String
  pub base_dir : String
  pub uuid4 : ℕ → String
  pub file_name : String → String
  pub sanitize : String → String
  pub dumps : Saved → String
  pub parse_result : String → Option AgentExternalResult
  pub dump_ref : ArtifactRef → String
  pub parse_ref : String → Option ArtifactRef

-- A map after `m[k] = v`
abbrev pub update {ℓ} : {V : Type ℓ} → String → V → (String → V) → String → V
update k v m j = if k == j then v else m j

abbrev pub emit : String → String → String → Option String → Action (Unit {0})
emit session_id event_type stage attempt_id w = (
  ok tt,
  record w {
    trace =
        w.trace
        ++ record {
          session_id = session_id;
          event_type = event_type;
          stage = stage;
          attempt_id = attempt_id;
        }
          ∷ [];
  },
)

module _ (h : Host) where
  abbrev pub utc_now_iso : Action String
  utc_now_iso w = (ok (h.utc_now w.ticks), record w { ticks = w.ticks + 1 })

  abbrev pub uuid4 : Action String
  uuid4 w = (ok (h.uuid4 w.ticks), w)

  -- `with session_store.lock_for_task(task_id):`. The body is not entered when the lock does not come
  -- in time, and the lock is given back in every case.
  abbrev pub with_lock : {A : Type 0} → Action A → Action A
  with_lock body w =
      let w' = record w { acquisitions = w.acquisitions + 1 } in
      if h.lock_free w.acquisitions then body w' else raise lock_timeout w'
