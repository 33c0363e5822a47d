-- ===== src/IoManager/Slots.antt =====
-- The context of one event (serverframework/net/iomanager.cc): filled in, triggered, and reset.
use my_server_framework.Prelude.{
  ℕ, suc, ◌≡◌, ◌≢◌, refl, ap, subst, ◌∙◌, arith, true, false, Option, none, some, inl, inr,
  Option-cases, if◌then◌else◌,
}
use my_server_framework.IoManager.{
  Event, no_event, read_event, write_event, has, with_event, without, EventContext, FdContext,
  reset_event_context, is_set, trigger_event, set_event_context, trigger_with, task_of, Task,
}
use my_server_framework.IoManager.Calls.{
  Caller, is_reset, filled, registered_context, dropped_context,
}
use my_server_framework.IoManager.Contexts.{Slot, Proper, registered, bit}

filled-set :
    (who : Caller) (cb : Option ℕ)
    → is_set who.scheduler ≡ true
    → who.running ≡ true
    → (y : EventContext) × (filled who cb ≡ some y) × (is_set y.scheduler ≡ true)
filled-set who none s r =
    (record { scheduler = who.scheduler; fiber = some who.fiber; cb = none }, rw r refl, s)
filled-set who (some cb) s r =
    (record { scheduler = who.scheduler; fiber = none; cb = some cb }, refl, s)

-- Where an event may be added, the context is filled in.
pub registered_context-Proper :
    (c : FdContext) (event : Event) (who : Caller) (cb : Option ℕ)
    → Proper c
    → event ≢ no_event
    → has c.events event ≡ false
    → is_set who.scheduler ≡ true
    → who.running ≡ true
    → (c' : FdContext) × (registered_context c event who cb ≡ some c')
      × Proper c'
      × (registered c' ≡ suc (registered c))
      × (c'.events ≡ with_event c.events event)
unfolding registered_context
registered_context-Proper c no_event who cb p n h s r = absurd (n refl)
registered_context-Proper c read_event who cb p n h s r =
    let (y, f, on) = filled-set who cb s r in
    let reset : c.read ≡ reset_event_context = subst (λ b. Slot b c.read) h p.0 in
    let test : is_reset c.read ≡ true = ap is_reset reset in
    (
      set_event_context (record c { events = with_event c.events read_event }) read_event y,
      rw (test, f) refl,
      (on, p.1),
      omega (arith, ap bit h),
      refl,
    )
registered_context-Proper c write_event who cb p n h s r =
    let (y, f, on) = filled-set who cb s r in
    let reset : c.write ≡ reset_event_context = subst (λ b. Slot b c.write) h p.1 in
    let test : is_reset c.write ≡ true = ap is_reset reset in
    (
      set_event_context (record c { events = with_event c.events write_event }) write_event y,
      rw (test, f) refl,
      (p.0, on),
      omega (arith, ap bit h),
      refl,
    )

trigger_with-set :
    (c : FdContext) (event : Event) (x : EventContext)
    → is_set x.scheduler ≡ true
    → (t : Task) × (trigger_with c event x ≡ some (t, dropped_context c event))
trigger_with-set c event x on = elim (Option-cases x.scheduler) [
  | inl off ↦ absurd (ground (arith, off, on))
  | inr (s, e) ↦ (task_of x s, rw e refl)
]

pub trigger_event-Proper :
    (c : FdContext) (event : Event)
    → Proper c
    → has c.events event ≡ true
    → (task : Task) × (c' : FdContext) × (trigger_event c event ≡ some (task, c'))
      × Proper c'
      × (registered c ≡ suc (registered c'))
      × (c'.events ≡ without c.events event)
unfolding trigger_event
trigger_event-Proper c no_event p h = absurd (ground (arith, h))
trigger_event-Proper c read_event p h =
    let on : is_set c.read.scheduler ≡ true = subst (λ b. Slot b c.read) h p.0 in
    let (t, e) = trigger_with-set c read_event c.read on in
    (
      t,
      dropped_context c read_event,
      ap (λ b. if b then trigger_with c read_event c.read else none) h ∙ e,
      (refl, p.1),
      omega (arith, ap bit h),
      refl,
    )
trigger_event-Proper c write_event p h =
    let on : is_set c.write.scheduler ≡ true = subst (λ b. Slot b c.write) h p.1 in
    let (t, e) = trigger_with-set c write_event c.write on in
    (
      t,
      dropped_context c write_event,
      ap (λ b. if b then trigger_with c write_event c.write else none) h ∙ e,
      (p.0, refl),
      omega (arith, ap bit h),
      refl,
    )

pub dropped-Proper :
    (c : FdContext) (event : Event)
    → Proper c
    → has c.events event ≡ true
    → Proper (dropped_context c event) × (registered c ≡ suc (registered (dropped_context c event)))
dropped-Proper c no_event p h = absurd (ground (arith, h))
dropped-Proper c read_event p h = ((refl, p.1), omega (arith, ap bit h))
dropped-Proper c write_event p h = ((p.0, refl), omega (arith, ap bit h))

pub dropped-events :
    (c : FdContext) (event : Event) → (dropped_context c event).events ≡ without c.events event
dropped-events c no_event = refl
dropped-events c read_event = refl
dropped-events c write_event = refl
