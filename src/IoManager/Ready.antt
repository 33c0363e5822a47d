-- ===== src/IoManager/Ready.antt =====
-- `CancelAll`, and the events that `Idle` handles (serverframework/net/iomanager.cc).
use my_server_framework.Prelude.{
  ℕ, ◌≡◌, ◌≢◌, refl, sym, ap, subst, ◌∙◌, arith, Bool, true, false, not, ◌&&◌, ◌⊎◌, none, some, inl,
  inr, Bool-cases, Option-cases, if◌then◌else◌, get_elem?,
}
use my_server_framework.IoManager.{
  Event, EventSet, read_event, write_event, has, without, is_none, IoManager,
}
use my_server_framework.IoManager.Calls.{
  EpollCtl, ctl_del, op_for, events_of, trigger, trigger_if, trigger_registered, cancel_all, Report,
  real_events, minus, handle_report,
}
use my_server_framework.IoManager.Contexts.{IsValid, events_at-some}
use my_server_framework.IoManager.Events.{trigger-IsValid}

without_off : (s : EventSet) (event : Event) → has s event ≡ false → s ≡ without s event
without_off s event h = ground (arith, h)

trigger_registered-IsValid :
    (m : IoManager) (fd : ℕ) (event : Event)
    → IsValid m
    → (m' : IoManager) × (trigger_registered fd event (some m) ≡ some m')
      × IsValid m'
      × (events_of m' fd ≡ without (events_of m fd) event)
unfolding trigger_registered trigger_if
trigger_registered-IsValid m fd event v = elim (Bool-cases (has (events_of m fd) event)) [
  | inl on ↦
      let (m', t, valid, left, task) = trigger-IsValid m fd event v on in
      (m', ap (λ b. if b then trigger m fd event else some m) on ∙ t, valid, left)
  | inr off ↦ (
    m,
    ap (λ b. if b then trigger m fd event else some m) off,
    v,
    without_off (events_of m fd) event off,
  )
]

-- `CancelAll` fails no ASSERT and keeps valid contexts valid. Where it answers true the descriptor
-- waits for no event any more; where it answers false it changes nothing.
pub cancel_all-IsValid :
    (m : IoManager) (epoll_ctl : EpollCtl) (fd : ℕ)
    → IsValid m
    → (r : Bool × IoManager) × (cancel_all m epoll_ctl fd ≡ some r)
      × IsValid r.1
      × (r.0 ≡ true → is_none (events_of r.1 fd) ≡ true)
      × (r.0 ≡ false → r.1 ≡ m)
unfolding cancel_all
cancel_all-IsValid m epoll_ctl fd v =
    let nothing : EventSet = record { readable = false; writable = false } in
    elim (Option-cases (get_elem? m.fd_contexts fd)) [
      | inl out ↦
          ((false, m), rw (cancel_all, out) refl, v, λ x. absurd (ground (arith, x)), λ x. refl)
      | inr (c, e) ↦ elim (Bool-cases (is_none c.events)) [
        | inl idle ↦ (
          (false, m),
          rw (cancel_all, e, idle) refl,
          v,
          λ x. absurd (ground (arith, x)),
          λ x. refl,
        )
        | inr waits ↦ elim (Bool-cases (epoll_ctl ctl_del fd nothing)) [
          | inl accepted ↦
              let (m₁, t₁, v₁, left₁) = trigger_registered-IsValid m fd read_event v in
              let (m₂, t₂, v₂, left₂) = trigger_registered-IsValid m₁ fd write_event v₁ in
              let over : is_none (events_of m₂ fd) ≡ true =
                ap is_none (left₂ ∙ ap (λ s. without s write_event) left₁) in
              (
                (true, m₂),
                rw (cancel_all, e, waits, accepted, t₁, t₂)
                    (ap (λ b. if b then some (true, m₂) else none) over),
                v₂,
                λ x. over,
                λ x. absurd (ground (arith, x)),
              )
          | inr refused ↦ (
            (false, m),
            rw (cancel_all, e, waits, refused) refl,
            v,
            λ x. absurd (ground (arith, x)),
            λ x. refl,
          )
        ]
      ]
    ]

-- `epoll_wait` reports input and output only of what is waited for.
abbrev pub Expected : Report → EventSet → Type 0
Expected r s = (r.epollin ≡ true → s.readable ≡ true) × (r.epollout ≡ true → s.writable ≡ true)

trigger_if-IsValid :
    (m : IoManager) (b : Bool) (fd : ℕ) (event : Event)
    → IsValid m
    → (b ≡ true → has (events_of m fd) event ≡ true)
    → (m' : IoManager) × (trigger_if b fd event (some m) ≡ some m')
      × IsValid m'
      × (events_of m' fd ≡ (if b then without (events_of m fd) event else events_of m fd))
unfolding trigger_if
trigger_if-IsValid m true fd event v h =
    let (m', t, valid, left, task) = trigger-IsValid m fd event v (h refl) in (m', t, valid, left)
trigger_if-IsValid m false fd event v h = (m, refl, v, refl)

real-readable :
    (r : Report) (s : EventSet)
    → Expected r s
    → (real_events r s).readable ≡ true
    → s.readable ≡ true
real-readable r s h x = ground (arith, h.0, x)

real-writable :
    (r : Report) (s : EventSet)
    → Expected r s
    → (real_events r s).writable ≡ true
    → s.writable ≡ true
real-writable r s h x = ground (arith, h.1, x)

abbrev after : Bool → EventSet → Event → EventSet
after b s event = if b then without s event else s

after_read-writable : (b : Bool) (s : EventSet) → (after b s read_event).writable ≡ s.writable
after_read-writable true s = refl
after_read-writable false s = refl

after-minus :
    (s t : EventSet) → after t.writable (after t.readable s read_event) write_event ≡ minus s t
after-minus s t = ground arith

-- What is reported of a descriptor is handled without a failed ASSERT, where only events that are
-- waited for are reported as input and output; the contexts stay valid, and what is no more waited
-- for is nothing, or just the events reported, an error standing for both.
pub handle_report-IsValid :
    (m : IoManager) (epoll_ctl : EpollCtl) (r : Report)
    → IsValid m
    → get_elem? m.fd_contexts r.fd ≢ none
    → Expected r (events_of m r.fd)
    → (m' : IoManager) × (handle_report m epoll_ctl r ≡ some m')
      × IsValid m'
      × ((events_of m' r.fd ≡ events_of m r.fd)
          ⊎ (events_of m' r.fd ≡ minus (events_of m r.fd) (real_events r (events_of m r.fd))))
unfolding handle_report
handle_report-IsValid m epoll_ctl r v there h = elim (Option-cases (get_elem? m.fd_contexts r.fd)) [
  | inl out ↦ absurd (there out)
  | inr (c, e) ↦
      let now : c.events ≡ events_of m r.fd = sym (events_at-some m.fd_contexts r.fd c e) in
      let expected : Expected r c.events = subst (Expected r) (sym now) h in
      let real = real_events r c.events in
      let left = minus c.events real in
      elim (Bool-cases
        (not (c.events.readable && real.readable) && not (c.events.writable && real.writable))) [
          | inl nothing ↦ (m, rw (handle_report, e, nothing) refl, v, inl refl)
          | inr ready ↦ elim (Bool-cases (epoll_ctl (op_for left) c.fd left)) [
            | inl accepted ↦
                let (m₁, t₁, v₁, l₁) =
                  trigger_if-IsValid m real.readable r.fd read_event v
                    (λ x. ap (λ s. s.readable) (sym now) ∙ real-readable r c.events expected x) in
                let (m₂, t₂, v₂, l₂) = trigger_if-IsValid m₁ real.writable r.fd write_event v₁ (λ x.
                  ap (λ s. s.writable) l₁
                  ∙ after_read-writable real.readable (events_of m r.fd)
                  ∙ ap (λ s. s.writable) (sym now)
                  ∙ real-writable r c.events expected x) in
                (
                  m₂,
                  rw (handle_report, e, ready, accepted, t₁, t₂) refl,
                  v₂,
                  inr (
                      l₂
                      ∙ ap (λ s. after real.writable s write_event) l₁
                      ∙ after-minus (events_of m r.fd) real
                      ∙ ap (λ s. minus (events_of m r.fd) (real_events r s)) now),
                )
            | inr refused ↦ (m, rw (handle_report, e, ready, refused) refl, v, inl refl)
          ]
        ]
]
