-- ===== src/IoManager/Events.antt =====
-- `AddEvent`, `DelEvent`, `CancelEvent` and `CancelAll` (serverframework/net/iomanager.cc) keep the
-- contexts and the count of pending events right, and no ASSERT of theirs fails.
use my_server_framework.Prelude.{
  ℕ, ◌≡◌, ◌≢◌, refl, sym, ap, ◌∙◌, arith, Bool, true, false, Option, none, some, inl, inr,
  Bool-cases, Option-cases, List, [], ◌∷◌, ◌++◌, if◌then◌else◌, set, get_elem?,
}
use my_server_framework.IoManager.{
  Event, EventSet, no_event, read_event, write_event, has, with_event, without, is_none, FdContext,
  IoManager, is_set, contexts_for, increment, decrement, Task,
}
use my_server_framework.IoManager.Calls.{
  EpollCtl, EpollOp, ctl_add, ctl_mod, op_for, Caller, add_event, dropped_context, events_at,
  events_of, del_event, trigger, cancel_event,
}
use my_server_framework.IoManager.Contexts.{
  IsValid, Proper-at, set-more, set-less, contexts_for-IsValid, get_elem?-set_at, events_at-some,
  events_at-contexts_for,
}
use my_server_framework.IoManager.Slots.{
  registered_context-Proper, trigger_event-Proper, dropped-Proper, dropped-events,
}

-- What an answer says of the events: true, that they are changed as given; false, that all is as
-- it was.
abbrev pub Answers : IoManager → ℕ → EventSet → Bool × IoManager → Type 0
Answers m fd now r = IsValid r.1 × (r.0 ≡ true → events_of r.1 fd ≡ now) × (r.0 ≡ false → r.1 ≡ m)

Answers-false : (m : IoManager) (fd : ℕ) (now : EventSet) → IsValid m → Answers m fd now (false, m)
Answers-false m fd now v = (v, λ x. absurd (ground (arith, x)), λ x. refl)

Answers-true :
    (m m' : IoManager) (fd : ℕ) (now : EventSet) (cs : List FdContext) (c c' : FdContext)
    → get_elem? cs fd ≡ some c
    → m'.fd_contexts ≡ set cs fd c'
    → c'.events ≡ now
    → IsValid m'
    → Answers m fd now (true, m')
Answers-true m m' fd now cs c c' e f g v = (
  v,
  λ x.
      ap (λ ds. events_at ds fd) f
      ∙ events_at-some (set cs fd c') fd c' (get_elem?-set_at cs fd c c' e)
      ∙ g,
  λ x. absurd (ground (arith, x)),
)

-- `DelEvent` keeps valid contexts valid. Where it answers true the event is no more waited for, and
-- the others of the descriptor are; where it answers false it changes nothing.
del_event-IsValid :
    (m : IoManager) (epoll_ctl : EpollCtl) (fd : ℕ) (event : Event)
    → IsValid m
    → Answers m fd (without (events_of m fd) event) (del_event m epoll_ctl fd event)
unfolding del_event
del_event-IsValid m epoll_ctl fd event v = elim (Option-cases (get_elem? m.fd_contexts fd)) [
  | inl out ↦ rw (del_event, out) (Answers-false m fd (without (events_of m fd) event) v)
  | inr (c, e) ↦
      let now : c.events ≡ events_of m fd = sym (events_at-some m.fd_contexts fd c e) in
      elim (Bool-cases (has c.events event)) [
        | inl on ↦
            elim (Bool-cases
              (epoll_ctl (op_for (without c.events event)) fd (without c.events event))) [
                | inl accepted ↦
                    let (p, l) = dropped-Proper c event (Proper-at m.fd_contexts fd c v.1 e) on in
                    rw (del_event, e, on, accepted)
                      (Answers-true m
                        (record m {
                          fd_contexts = set m.fd_contexts fd (dropped_context c event);
                          pending_event_count = decrement m.pending_event_count;
                        })
                        fd (without (events_of m fd) event) m.fd_contexts c
                        (dropped_context c event) e refl
                        (dropped-events c event ∙ ap (λ t. without t event) now)
                        (set-less m fd c (dropped_context c event) v e p l))
                | inr refused ↦
                    rw (del_event, e, on, refused)
                      (Answers-false m fd (without (events_of m fd) event) v)
              ]
        | inr off ↦ rw (del_event, e, off) (Answers-false m fd (without (events_of m fd) event) v)
      ]
]

waits-none : (event : Event) → has (record { readable = false; writable = false }) event ≢ true
waits-none no_event h = absurd (ground (arith, h))
waits-none read_event h = absurd (ground (arith, h))
waits-none write_event h = absurd (ground (arith, h))

pub events_at-none :
    (cs : List FdContext) (i : ℕ)
    → get_elem? cs i ≡ none
    → events_at cs i ≡ record { readable = false; writable = false }
events_at-none cs i e = rw (events_at, e) refl

-- Whatever waits is triggered: it is given to its scheduler, once, and no more waited for.
pub trigger-IsValid :
    (m : IoManager) (fd : ℕ) (event : Event)
    → IsValid m
    → has (events_of m fd) event ≡ true
    → (m' : IoManager) × (trigger m fd event ≡ some m')
      × IsValid m'
      × (events_of m' fd ≡ without (events_of m fd) event)
      × ((task : Task) × (m'.scheduled ≡ m.scheduled ++ (task ∷ [])))
unfolding trigger
trigger-IsValid m fd event v h = elim (Option-cases (get_elem? m.fd_contexts fd)) [
  | inl out ↦
      absurd
        (waits-none event (ap (λ t. has t event) (sym (events_at-none m.fd_contexts fd out)) ∙ h))
  | inr (c, e) ↦
      let now : c.events ≡ events_of m fd = sym (events_at-some m.fd_contexts fd c e) in
      let (task, c', t, p, l, left) =
        trigger_event-Proper c event (Proper-at m.fd_contexts fd c v.1 e)
          (ap (λ t. has t event) now ∙ h) in
      let m' : IoManager = record {
        fd_contexts = set m.fd_contexts fd c';
        pending_event_count = decrement m.pending_event_count;
        scheduled = m.scheduled ++ (task ∷ []);
      } in
      let valid = set-less m fd c c' v e p l in
      (
        m',
        rw (trigger, e, t) refl,
        valid,
        events_at-some (set m.fd_contexts fd c') fd c' (get_elem?-set_at m.fd_contexts fd c c' e)
            ∙ left
            ∙ ap (λ t. without t event) now,
        (task, refl),
      )
]

-- `CancelEvent` fails no ASSERT and keeps valid contexts valid. Where it answers true the event is
-- triggered; where it answers false it changes nothing.
pub cancel_event-IsValid :
    (m : IoManager) (epoll_ctl : EpollCtl) (fd : ℕ) (event : Event)
    → IsValid m
    → (r : Bool × IoManager) × (cancel_event m epoll_ctl fd event ≡ some r)
      × Answers m fd (without (events_of m fd) event) r
      × (r.0 ≡ true → (task : Task) × (r.1.scheduled ≡ m.scheduled ++ (task ∷ [])))
unfolding cancel_event
cancel_event-IsValid m epoll_ctl fd event v = elim (Option-cases (get_elem? m.fd_contexts fd)) [
  | inl out ↦ (
    (false, m),
    rw (cancel_event, out) refl,
    Answers-false m fd (without (events_of m fd) event) v,
    λ x. absurd (ground (arith, x)),
  )
  | inr (c, e) ↦
      let now : c.events ≡ events_of m fd = sym (events_at-some m.fd_contexts fd c e) in
      elim (Bool-cases (has c.events event)) [
        | inl on ↦
            elim (Bool-cases
              (epoll_ctl (op_for (without c.events event)) fd (without c.events event))) [
                | inl accepted ↦
                    let (m', t, valid, left, task) =
                      trigger-IsValid m fd event v (ap (λ t. has t event) (sym now) ∙ on) in
                    (
                      (true, m'),
                      rw (cancel_event, e, on, accepted, t) refl,
                      (valid, λ x. left, λ x. absurd (ground (arith, x))),
                      λ x. task,
                    )
                | inr refused ↦ (
                  (false, m),
                  rw (cancel_event, e, on, refused) refl,
                  Answers-false m fd (without (events_of m fd) event) v,
                  λ x. absurd (ground (arith, x)),
                )
              ]
        | inr off ↦ (
          (false, m),
          rw (cancel_event, e, off) refl,
          Answers-false m fd (without (events_of m fd) event) v,
          λ x. absurd (ground (arith, x)),
        )
      ]
]

-- On valid contexts, for an event that is not waited for yet, and called by a fiber that runs under
-- a scheduler, `AddEvent` fails no ASSERT and keeps the contexts valid. Where it answers 0 the event
-- is waited for besides those from before, and it does where epoll accepts every request; where epoll
-- refuses, it does no more than to enlarge the contexts.
pub add_event-IsValid :
    (m : IoManager) (epoll_ctl : EpollCtl) (fd : ℕ) (event : Event) (who : Caller) (cb : Option ℕ)
    → IsValid m
    → event ≢ no_event
    → has (events_of m fd) event ≡ false
    → is_set who.scheduler ≡ true
    → who.running ≡ true
    → (r : Bool × IoManager) × (add_event m epoll_ctl fd event who cb ≡ some r)
      × Answers
          (record m { fd_contexts = contexts_for fd m.fd_contexts })
          fd
          (with_event (events_of m fd) event)
          r
      × (((op : EpollOp) (f : ℕ) (e : EventSet) → epoll_ctl op f e ≡ true) → r.0 ≡ true)
unfolding add_event
add_event-IsValid m epoll_ctl fd event who cb v n h s r =
    let cs = contexts_for fd m.fd_contexts in
    let m₀ : IoManager = record m { fd_contexts = cs } in
    let now = with_event (events_of m fd) event in
    let grown = contexts_for-IsValid m fd v in
    let (c, e) = grown.1 in
    let same : c.events ≡ events_of m fd =
      sym (events_at-some cs fd c e) ∙ events_at-contexts_for fd m.fd_contexts fd v.0 in
    let off : has c.events event ≡ false = ap (λ t. has t event) same ∙ h in
    let (c', f, p, l, more) =
      registered_context-Proper c event who cb (Proper-at cs fd c grown.0.1 e) n off s r in
    let op = if is_none c.events then ctl_add else ctl_mod in
    elim (Bool-cases (epoll_ctl op fd (with_event c.events event))) [
      | inl accepted ↦ (
        (
          true,
          record m {
            fd_contexts = set cs fd c';
            pending_event_count = increment m.pending_event_count;
          },
        ),
        rw (add_event, e, off, accepted, f) refl,
        Answers-true m₀
            (record m {
              fd_contexts = set cs fd c';
              pending_event_count = increment m.pending_event_count;
            })
            fd now cs c c' e refl (more ∙ ap (λ t. with_event t event) same)
            (set-more m₀ fd c c' grown.0 e p l),
        λ x. refl,
      )
      | inr refused ↦ (
        (false, m₀),
        rw (add_event, e, off, refused) refl,
        Answers-false m₀ fd now grown.0,
        λ x. absurd (ground (arith, x op fd (with_event c.events event), refused)),
      )
    ]
