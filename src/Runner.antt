-- ===== src/Runner.antt =====
-- src/infer_lab/server/engine_runner.py: the thread that drives the engine, and the calls of
-- others. The engine is an interface (`Ops`). A `PendingRequest` is shared by its submitter and the
-- runner: it is an entry of `handles`, and the queue and the dictionary `_pending` refer to it by
-- its index. Clients' calls and the loop's steps are interleaved; `submit` and the body of the
-- drain loop are atomic, as is a turn of the loop. Times and the thread's start are left out.
pub mod Reaching
pub mod Handles
pub mod Once
use infer_lab.Base.{
  ℕ, ◌+◌, ◌==◌, List, [], ◌∷◌, ◌++◌, length, set, get_or, Bool, true, false, ◌&&◌, if◌then◌else◌,
  Option, none, some, Error, Result, ok, err, Outcome, Action, runtime_error,
}

pub data Message : Type 0 where
  shutting_down : Message
  raised : Error → Message

pub record Pending (O : Type 0) : Type 0 where
  pub request_id : Option ℕ
  pub done : Bool
  pub output : Option O
  pub error : Option Message

-- What the runner calls of the engine: `R` is a prompt with its parameters, `O` an output, `E` the
-- engine.
pub record Ops (R O E : Type 0) : Type 0 where
  pub add_request : R → Action E ℕ
  pub step : Action E (List O)
  pub abort_request : ℕ → E → E
  pub has_unfinished_requests : E → Bool
  pub output_id : O → ℕ
  pub output_finished : O → Bool

pub record Runner (R O E : Type 0) : Type 0 where
  pub engine : E
  pub submissions : List (R × ℕ)
  pub pending : List (ℕ × ℕ)
  pub handles : List (Pending O)
  pub stopping : Bool
  pub exited : Bool
  pub steps : ℕ

abbrev pub no_work : {A : Type 0} → List A → Bool
no_work [] = true
no_work (x ∷ xs) = false

module _ {O : Type 0} where
  abbrev pub new_pending : Pending O
  new_pending = record { request_id = none; done = false; output = none; error = none }

  abbrev pub fail_with : Message → Pending O → Pending O
  fail_with message p = record p { error = some message; done = true }

  abbrev pub complete_with : O → Pending O → Pending O
  complete_with o p = record p { output = some o; done = true }

  -- A method of the object `h`.
  abbrev pub modify : ℕ → (Pending O → Pending O) → List (Pending O) → List (Pending O)
  modify h f handles = set handles h (f (get_or handles h new_pending))

  -- The loop of `_fail_all`.
  unfoldable pub fail_each : Message → List (ℕ × ℕ) → List (Pending O) → List (Pending O)
  fail_each message [] handles = handles
  fail_each message ((id, h) ∷ rest) handles =
      fail_each message rest (modify h (fail_with message) handles)

-- The dictionary: `self._pending.get(id)`, without the key, and `self._pending[id] = h`.
unfoldable pub find_key : ℕ → List (ℕ × ℕ) → Option ℕ
find_key id [] = none
find_key id ((i, h) ∷ rest) = if i == id then some h else find_key id rest

unfoldable pub remove_key : ℕ → List (ℕ × ℕ) → List (ℕ × ℕ)
remove_key id [] = []
remove_key id ((i, h) ∷ rest) = if i == id then rest else (i, h) ∷ remove_key id rest

abbrev pub put_key : ℕ → ℕ → List (ℕ × ℕ) → List (ℕ × ℕ)
put_key id h pending = (id, h) ∷ remove_key id pending

module _ {R O E : Type 0} where
  abbrev pub started : E → Runner R O E
  started engine = record {
    engine = engine;
    submissions = [];
    pending = [];
    handles = [];
    stopping = false;
    exited = false;
    steps = 0;
  }

  unfoldable pub submit : R → Action (Runner R O E) ℕ
  submit request r = if r.stopping then (err runtime_error, r) else (
    ok (length r.handles),
    record r {
      submissions = r.submissions ++ (request, length r.handles) ∷ [];
      handles = r.handles ++ new_pending ∷ [];
    },
  )

  -- The part of `stop` before it joins the thread.
  abbrev pub stop : Runner R O E → Runner R O E
  stop r = record r { stopping = true }

  unfoldable pub fail_all : Message → Runner R O E → Runner R O E
  fail_all message r = record r { handles = fail_each message r.pending r.handles; pending = [] }

module _ {R O E : Type 0} (ops : Ops R O E) where
  -- The end of `wait` where the time is up.
  abbrev pub give_up : Option ℕ → Runner R O E → Runner R O E
  give_up none r = r
  give_up (some id) r = record r { engine = ops.abort_request id r.engine }

  unfoldable pub wait_timeout : ℕ → Runner R O E → Runner R O E
  wait_timeout h r = give_up (get_or r.handles h new_pending).request_id r

  -- A submission whose request the engine has taken, or refused.
  abbrev pub accepted : ℕ → Runner R O E → Outcome E ℕ → Runner R O E
  accepted h r (err e, engine) = record r {
    engine = engine;
    handles = modify h (fail_with (raised e)) r.handles;
  }
  accepted h r (ok id, engine) = record r {
    engine = engine;
    handles = modify h (λ p. record p { request_id = some id }) r.handles;
    pending = put_key id h r.pending;
  }

  abbrev pub drain_next : List (R × ℕ) → Runner R O E → Runner R O E
  drain_next [] r = r
  drain_next ((request, h) ∷ rest) r =
      let r' = record r { submissions = rest } in
      if r.stopping
      then record r' { handles = modify h (fail_with shutting_down) r.handles }
      else accepted h r' (ops.add_request request r.engine)

  -- A round of `_drain_submissions`.
  unfoldable pub drain_one : Runner R O E → Runner R O E
  drain_one r = drain_next r.submissions r

  abbrev pub finish_one : O → Option ℕ → Runner R O E → Runner R O E
  finish_one o none r = r
  finish_one o (some h) r = record r {
    pending = remove_key (ops.output_id o) r.pending;
    handles = modify h (complete_with o) r.handles;
  }

  -- `for output in outputs`
  unfoldable pub deliver : List O → Runner R O E → Runner R O E
  deliver [] r = r
  deliver (o ∷ outs) r =
      deliver outs
        (if ops.output_finished o then finish_one o (find_key (ops.output_id o) r.pending) r else r)

  abbrev pub stepped : Runner R O E → Outcome E (List O) → Runner R O E
  stepped r (err e, engine) = fail_all (raised e) (record r { engine = engine })
  stepped r (ok outs, engine) = deliver outs (record r { engine = engine; steps = r.steps + 1 })

  -- A turn of `_loop` behind the drain.
  unfoldable pub turn : Runner R O E → Runner R O E
  turn r =
      if ops.has_unfinished_requests r.engine
      then stepped r (ops.step r.engine)
      else if r.stopping && no_work r.submissions
      then record r { exited = true }
      else r
