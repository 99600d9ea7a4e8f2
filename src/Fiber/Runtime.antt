-- ===== src/Fiber/Runtime.antt =====
-- tarantool/src/fiber/async.rs and tarantool/src/fiber/async/timeout.rs: a future is run on a fiber,
-- which waits between two polls, and a future may have a deadline.
pub mod Laws
pub mod Sleep
use tarantool_module.Base.{
  ℕ, zero, suc, Bool, true, false, Option, none, some, ltb, leb, if◌then◌else◌, ◌⊎◌, inl, inr,
}
use tarantool_module.Fiber.Oneshot as Oneshot
use tarantool_module.Fiber.Oneshot.{Channel}
use tarantool_module.Time.{duration_max, checked_add, duration_since}

pub data Poll (T : Type 0) : Type 0 where
  pending : Poll T
  ready : T → Poll T

-- `ContextExt`: what a future asks of the runtime, when it is not ready. A descriptor comes with the
-- events to wait for.
pub record Context : Type 0 where
  pub deadline : Option ℕ
  pub coio_wait : Option (ℕ × ℕ)

unfoldable pub from_waker : Context
from_waker = record { deadline = none; coio_wait = none }

unfoldable pub set_deadline : ℕ → Context → Context
set_deadline new cx = elim cx.deadline [
  | some deadline ↦ if ltb new deadline then record cx { deadline = some new } else cx
  | none ↦ record cx { deadline = some new }
]

pub set_coio_wait : ℕ → ℕ → Context → Context
set_coio_wait fd event cx = record cx { coio_wait = some (fd, event) }

-- What the fibers of the C API do: the clock, and the waits with their timeouts, over a world that
-- other fibers change meanwhile.
pub record Runtime (W : Type 0) : Type 0 where
  pub clock : W → ℕ
  pub wait_timeout : ℕ → W → W
  pub coio_wait : ℕ × ℕ → ℕ → W → W

-- A future by what a poll does, with the context, its own state and the world.
abbrev pub Future : Type 0 → Type 0 → Type 0 → Type 0
Future W F T = Context → F → W → Poll T × Context × F × W

-- `Error` of a timeout, in its result.
pub data Outcome (T E : Type 0) : Type 0 where
  done : T → Outcome T E
  failed : E → Outcome T E
  expired : Outcome T E

-- `v.map_err(Error::Failed)`
abbrev pub map_err : {T E : Type 0} → E ⊎ T → Outcome T E
map_err (inr v) = done v
map_err (inl e) = failed e

pub record Timeout (F : Type 0) : Type 0 where
  pub future : F
  pub deadline : Option ℕ

-- `deadline`
pub deadline_at : {F : Type 0} → ℕ → F → Timeout F
deadline_at deadline f = record { future = f; deadline = some deadline }

module _ {W : Type 0} (rt : Runtime W) where
  -- The wait of `block_on` behind a poll that is not ready
  unfoldable pub wait : Context → W → W
  wait cx w =
      let timeout : ℕ = elim cx.deadline [
        | some deadline ↦ duration_since deadline (rt.clock w)
        | none ↦ duration_max
      ] in
      elim cx.coio_wait [ some fd ↦ rt.coio_wait fd timeout w | none ↦ rt.wait_timeout timeout w ]

  -- `block_on`, which polls at most as often as the fuel says.
  pub block_on : {F T : Type 0} → Future W F T → ℕ → F → W → Option (T × W)
  unfolding from_waker
  block_on poll zero f w = none
  block_on poll (suc fuel) f w =
      let (p, cx, f1, w1) = poll from_waker f w in
      elim p [ ready t ↦ some (t, w1) | pending ↦ block_on poll fuel f1 (wait cx w1) ]

  pub timeout : {F : Type 0} → ℕ → F → W → Timeout F
  timeout duration f w = record { future = f; deadline = checked_add (rt.clock w) duration }

  -- `Timeout::poll`
  pub poll_timeout : {F T E : Type 0} → Future W F (E ⊎ T) → Future W (Timeout F) (Outcome T E)
  unfolding set_deadline
  poll_timeout poll cx t w =
      let (p, cx1, f1, w1) = poll cx t.future w in
      let t1 = record t { future = f1 } in
      elim p [
        | ready v ↦ (ready (map_err v), cx1, t1, w1)
        | pending ↦ elim t.deadline [
          | some deadline ↦
              if leb deadline (rt.clock w1)
              then (ready expired, cx1, t1, w1)
              else (pending, set_deadline deadline cx1, t1, w1)
          | none ↦ (pending, cx1, t1, w1)
        ]
      ]

-- The receiver of `oneshot` as a future of a task
unfoldable pub poll_receiver : {W T : Type 0} → ℕ → Future W (Channel T) (Unit {0} ⊎ T)
poll_receiver task cx c w =
    let (p, c1) = Oneshot.poll task c in
    (
      elim p [
        | Oneshot.waiting ↦ pending
        | Oneshot.closed ↦ ready (inl tt)
        | Oneshot.received v ↦ ready (inr v)
      ],
      cx,
      c1,
      w,
    )

-- `sleep` waits for a value that nobody sends; its sender lives as long as it waits. The
-- `unwrap_err` answers whether there was an error.
pub sleep : {W : Type 0} → Runtime W → ℕ → Future W (Timeout (Channel (Unit {0}))) Bool
unfolding poll_timeout poll_receiver
sleep rt task cx t w =
    let (p, cx1, t1, w1) = poll_timeout rt (poll_receiver task) cx t w in
    (
      elim p [ ready (done _) ↦ ready false | ready _ ↦ ready true | pending ↦ pending ],
      cx1,
      t1,
      w1,
    )
