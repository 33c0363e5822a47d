-- ===== src/Hook/Waits.antt =====
-- A wait of `do_io` (serverframework/net/hook.cc): what happens while the fiber is away, the event that comes
-- or the timer that ends the wait, and that `AddEvent` has put the fiber where both find it.
use my_server_framework.Prelude.{
  ℕ, ◌≡◌, ◌≢◌, refl, sym, ap, subst, ◌∙◌, arith, Bool, true, false, not, ◌||◌, Option, none, some,
  inl, inr, Bool-cases, List, [], ◌∷◌, ◌++◌, if◌then◌else◌, ◌==◌, set, get_elem?,
}
use my_server_framework.Prelude.Sums.{some-injective}
use my_server_framework.IoManager.{
  Event, EventSet, no_event, read_event, write_event, has, with_event, without, EventContext,
  FdContext, get_event_context, set_event_context, reset_event_context, IoManager, Task, run_cb,
  run_fiber, is_set, contexts_for, is_none, increment, trigger_event, decrement,
}
use my_server_framework.IoManager.Calls.{
  EpollOp, ctl_add, ctl_mod, Caller, is_reset, registered_context, add_event, trigger, cancel_event,
  op_for, events_of,
}
use my_server_framework.IoManager.Contexts.{
  IsValid, set-more, Proper-at, contexts_for-IsValid, get_elem?-set_at, events_at-some,
  events_at-contexts_for,
}
use my_server_framework.IoManager.Slots.{registered_context-Proper}
use my_server_framework.IoManager.Events.{trigger-IsValid}
use my_server_framework.Timer.{Callback, list_expired_cb}
use my_server_framework.Hook.{World, Away, Call}

-- Whether the task scheduled last is a fiber.
unfoldable pub resumes : ℕ → List Task → Bool
resumes fiber [] = false
resumes fiber (run_cb s cb ∷ []) = false
resumes fiber (run_fiber s none ∷ []) = false
resumes fiber (run_fiber s (some f) ∷ []) = f == fiber
resumes fiber (t ∷ (u ∷ ts)) = resumes fiber (u ∷ ts)

-- The fiber goes on if it was scheduled.
abbrev pub going_on : Call → Bool → World → Option (Bool × World)
going_on c cancelled w = if resumes c.who.fiber w.iom.scheduled then some (cancelled, w) else none

-- The event comes: `Idle` triggers it.
unfoldable pub comes : Call → Away
comes c w = elim (trigger w.iom c.fd c.event) [
  | none ↦ none
  | some iom ↦ going_on c false (record w { iom = iom })
]

-- The callback of the timer: `alive` is whether `winfo` can be locked.
unfoldable pub time_out : Call → Bool → Bool → World → Option (Bool × World)
time_out c alive cancelled w =
    if not alive || cancelled
    then some (cancelled, w)
    else elim (cancel_event w.iom c.epoll_ctl c.fd c.event) [
      | none ↦ none
      | some r ↦ some (true, record w { iom = r.1 })
    ]

unfoldable pub collected : ℕ → List Callback → Bool
collected cb [] = false
collected cb (none ∷ cbs) = collected cb cbs
collected cb (some x ∷ cbs) = let rest = collected cb cbs in if x == cb then true else rest

-- At the time `later` the manager takes the timers that are due; if that of the call is among them its
-- callback runs, while the fiber, whose stack has `tinfo`, is away.
unfoldable pub times_out : Call → ℕ → ℕ → Away
times_out c later probe w =
    let r = list_expired_cb w.timers later probe in
    if collected c.callback r.0
    then elim (time_out c true false (record w { timers = r.1 })) [
      | none ↦ none
      | some x ↦ going_on c x.0 x.1
    ]
    else none

resumes-append :
    (fiber s : ℕ) (ts : List Task) → resumes fiber (ts ++ (run_fiber s (some fiber) ∷ [])) ≡ true
unfolding resumes
resumes-append fiber s [] = ground arith
resumes-append fiber s (t ∷ []) = resumes-append fiber s []
resumes-append fiber s (t ∷ (u ∷ ts)) = resumes-append fiber s (u ∷ ts)

-- What `AddEvent` writes for a fiber that runs.
waiting_fiber : Caller → EventContext
waiting_fiber who = record { scheduler = who.scheduler; fiber = some who.fiber; cb = none }

-- The context that waits has the fiber.
registered_context-fiber :
    (c c' : FdContext) (event : Event) (who : Caller)
    → event ≢ no_event
    → who.running ≡ true
    → registered_context c event who none ≡ some c'
    → get_event_context c' event ≡ some (waiting_fiber who)
unfolding registered_context waiting_fiber
registered_context-fiber c c' no_event who n r e = absurd (n refl)
registered_context-fiber c c' read_event who n r e = elim (Bool-cases (is_reset c.read)) [
  | inl fresh ↦
      let made : ◌≡◌ {A = Option FdContext} _ (some c') = rw (registered_context, fresh, r) at e in
      ap (λ (x : FdContext). some x.read) (sym (some-injective _ c' made))
  | inr used ↦ absurd (ground (arith, rw (registered_context, used) at e))
]
registered_context-fiber c c' write_event who n r e = elim (Bool-cases (is_reset c.write)) [
  | inl fresh ↦
      let made : ◌≡◌ {A = Option FdContext} _ (some c') = rw (registered_context, fresh, r) at e in
      ap (λ (x : FdContext). some x.write) (sym (some-injective _ c' made))
  | inr used ↦ absurd (ground (arith, rw (registered_context, used) at e))
]

-- What a trigger does for the fiber that waits: it is scheduled, and the event is waited for no more.
abbrev pub Woken : Call → ℕ → IoManager → IoManager → Type 0
Woken c s m m' =
    IsValid m'
    × (has (events_of m' c.fd) c.event ≡ false)
    × (m'.scheduled ≡ m.scheduled ++ (run_fiber s (some c.who.fiber) ∷ []))

-- What the hooks ask of the caller, which runs under the scheduler `s`, and of epoll.
pub record Ready (c : Call) (s : ℕ) : Type 0 where
  pub event : c.event ≢ no_event
  pub scheduler : c.who.scheduler ≡ some s
  pub running : c.who.running ≡ true
  pub accepts : (op : EpollOp) (f : ℕ) (e : EventSet) → c.epoll_ctl op f e ≡ true

-- The contexts are valid, and the event is not waited for.
abbrev pub Rested : Call → World → Type 0
Rested c w = IsValid w.iom × (has (events_of w.iom c.fd) c.event ≡ false)

-- The fiber waits for the event, and is woken by a trigger.
abbrev pub Waits : Call → ℕ → IoManager → IoManager → Type 0
Waits c s m m' =
    (x : FdContext) × (get_elem? m'.fd_contexts c.fd ≡ some x)
    × (has x.events c.event ≡ true)
    × ((m'' : IoManager) × (trigger m' c.fd c.event ≡ some m'') × Woken c s m m'')

has-with : (t : EventSet) (event : Event) → event ≢ no_event → has (with_event t event) event ≡ true
has-with t no_event n = absurd (n refl)
has-with t read_event n = refl
has-with t write_event n = refl

has-without : (t : EventSet) (event : Event) → has (without t event) event ≡ false
has-without t no_event = refl
has-without t read_event = refl
has-without t write_event = refl

trigger-fiber :
    (m : IoManager) (fd s : ℕ) (event : Event) (who : Caller) (x : FdContext)
    → get_elem? m.fd_contexts fd ≡ some x
    → has x.events event ≡ true
    → get_event_context x event ≡ some (waiting_fiber who)
    → who.scheduler ≡ some s
    → (m' : IoManager) × (trigger m fd event ≡ some m')
      × (m'.scheduled ≡ m.scheduled ++ (run_fiber s (some who.fiber) ∷ []))
unfolding trigger trigger_event waiting_fiber
trigger-fiber m fd s event who x there on at by_ = (
  record {
    fd_contexts = set m.fd_contexts fd (
        set_event_context (record x { events = without x.events event }) event reset_event_context);
    pending_event_count = decrement m.pending_event_count;
    scheduled = m.scheduled ++ (run_fiber s (some who.fiber) ∷ []);
  },
  rw (trigger, there, trigger_event, on, at, waiting_fiber, by_) refl,
  refl,
)

pub add_event-Waits :
    (c : Call) (s : ℕ) (m : IoManager)
    → Ready c s
    → IsValid m
    → has (events_of m c.fd) c.event ≡ false
    → (m' : IoManager) × (add_event m c.epoll_ctl c.fd c.event c.who none ≡ some (true, m'))
      × Waits c s m m'
unfolding add_event
add_event-Waits c s m k v h =
    let cs = contexts_for c.fd m.fd_contexts in
    let grown = contexts_for-IsValid m c.fd v in
    let (x, e) = grown.1 in
    let same : x.events ≡ events_of m c.fd =
      sym (events_at-some cs c.fd x e) ∙ events_at-contexts_for c.fd m.fd_contexts c.fd v.0 in
    let off : has x.events c.event ≡ false = ap (λ t. has t c.event) same ∙ h in
    let set_ : is_set c.who.scheduler ≡ true = ap is_set k.scheduler in
    let (y, f, p, l, more) =
      registered_context-Proper x c.event c.who none (Proper-at cs c.fd x grown.0.1 e) k.event off
        set_ k.running in
    let op = if is_none x.events then ctl_add else ctl_mod in
    let m' : IoManager = record m {
      fd_contexts = set cs c.fd y;
      pending_event_count = increment m.pending_event_count;
    } in
    let there : get_elem? m'.fd_contexts c.fd ≡ some y = get_elem?-set_at cs c.fd x y e in
    let on : has y.events c.event ≡ true =
      ap (λ t. has t c.event) more ∙ has-with x.events c.event k.event in
    let valid : IsValid m' = set-more (record m { fd_contexts = cs }) c.fd x y grown.0 e p l in
    let (m₁, t, grew) =
      trigger-fiber m' c.fd s c.event c.who y there on
        (registered_context-fiber x y c.event c.who k.event k.running f) k.scheduler in
    let (m₂, t₂, valid₂, left, task) =
      trigger-IsValid m' c.fd c.event valid
        (ap (λ u. has u c.event) (events_at-some m'.fd_contexts c.fd y there) ∙ on) in
    let one : m₂ ≡ m₁ = some-injective m₂ m₁ (sym t₂ ∙ t) in
    (
      m',
      rw (add_event, e, off, k.accepts op c.fd (with_event x.events c.event), f) refl,
      (
        y,
        there,
        on,
        (
          m₁,
          t,
          (
            subst IsValid one valid₂,
            subst (λ n. has (events_of n c.fd) c.event ≡ false) one
                (ap (λ u. has u c.event) left ∙ has-without (events_of m' c.fd) c.event),
            grew,
          ),
        ),
      ),
    )

going_on-true :
    (c : Call) (s : ℕ) (b : Bool) (m : IoManager) (w : World)
    → w.iom.scheduled ≡ m.scheduled ++ (run_fiber s (some c.who.fiber) ∷ [])
    → going_on c b w ≡ some (b, w)
going_on-true c s b m w e =
    let up : resumes c.who.fiber w.iom.scheduled ≡ true =
      ap (resumes c.who.fiber) e ∙ resumes-append c.who.fiber s m.scheduled in
    rw up refl

-- The event comes for a fiber that waits, which goes on.
pub comes-Waits :
    (c : Call) (s : ℕ) (m : IoManager) (w : World) (x : Waits c s m w.iom)
    → comes c w ≡ some (false, record w { iom = x.3.0 })
unfolding comes
comes-Waits c s m w (x, there, on, (m', t, (valid, off, grew))) =
    rw (comes, t) (going_on-true c s false m (record w { iom = m' }) grew)

-- The callback of its timer sets `cancelled`, and makes it go on.
pub time_out-Waits :
    (c : Call) (s : ℕ) (m : IoManager) (w : World) (x : Waits c s m w.iom)
    → Ready c s
    → (time_out c true false w ≡ some (true, record w { iom = x.3.0 }))
      × (going_on c true (record w { iom = x.3.0 }) ≡ some (true, record w { iom = x.3.0 }))
unfolding time_out cancel_event
time_out-Waits c s m w (x, there, on, (m', t, (valid, off, grew))) k =
    let left = without x.events c.event in
    (
      rw (time_out, cancel_event, there, on, k.accepts (op_for left) c.fd left, t) refl,
      going_on-true c s true m (record w { iom = m' }) grew,
    )
