-- ===== src/IoManager/Contexts.antt =====
-- When the contexts of `IOManager` (serverframework/net/iomanager.cc) are well-formed, and what keeps
-- them so.
use my_server_framework.Prelude.{
  All, ℕ, zero, suc, ◌+◌, ◌-◌, ◌*◌, ◌/◌, ◌%◌, ◌^◌, ◌≤◌, ◌<◌, ◌≡◌, refl, sym, ap, subst, ◌∙◌, arith,
  Bool, true, false, some, inl, inr, Bool-cases, List, [], ◌∷◌, ◌++◌, ltb, length, take, set,
  get_elem?, length-set, length-append, append-nil,
}
use my_server_framework.IoManager.Calls.{events_at}
use my_server_framework.IoManager.{
  EventContext, FdContext, IoManager, reset_event_context, is_set, new_contexts, context_resize,
  contexts_for, decrement, increment,
}

-- An event that is waited for has a scheduler to go to; the context of another is reset.
abbrev pub Slot : Bool → EventContext → Type 0
Slot true x = is_set x.scheduler ≡ true
Slot false x = x ≡ reset_event_context

abbrev pub Proper : FdContext → Type 0
Proper c = Slot c.events.readable c.read × Slot c.events.writable c.write

abbrev pub bit : Bool → ℕ
bit true = 1
bit false = 0

-- The number of events of a descriptor that are waited for, and of all of them.
abbrev pub registered : FdContext → ℕ
registered c = bit c.events.readable + bit c.events.writable

abbrev pub total : List FdContext → ℕ
total [] = 0
total (c ∷ cs) = registered c + total cs

-- There are the contexts that the constructor makes, each is proper, and the count of pending
-- events is the number of events that are waited for, in a `size_t`.
abbrev pub IsValid : IoManager → Type 0
IsValid m =
    (32 ≤ length m.fd_contexts)
    × All Proper m.fd_contexts
    × (m.pending_event_count ≡ total m.fd_contexts % 2 ^ 64)

pub Proper-at :
    (cs : List FdContext) (i : ℕ) (c : FdContext)
    → All Proper cs
    → get_elem? cs i ≡ some c
    → Proper c
Proper-at [] i c a e = absurd (ground (arith, e))
Proper-at (x ∷ cs) zero c a e = subst Proper {x = x} {y = c} (ground (arith, e)) a.0
Proper-at (x ∷ cs) (suc i) c a e = Proper-at cs i c a.1 e

Proper-set :
    (cs : List FdContext) (i : ℕ) (c : FdContext)
    → All Proper cs
    → Proper c
    → All Proper (set cs i c)
Proper-set [] i c a p = tt
Proper-set (x ∷ cs) zero c a p = (p, a.1)
Proper-set (x ∷ cs) (suc i) c a p = (a.0, Proper-set cs i c a.1 p)

total-set :
    (cs : List FdContext) (i : ℕ) (c c' : FdContext)
    → get_elem? cs i ≡ some c
    → total (set cs i c') + registered c ≡ total cs + registered c'
total-set [] i c c' e = absurd (ground (arith, e))
total-set (x ∷ cs) zero c c' e =
    let same : x ≡ c = ground (arith, e) in omega (arith, ap registered same)
total-set (x ∷ cs) (suc i) c c' e = omega (arith, total-set cs i c c' e)

-- One event more, or one less, at one descriptor.
pub set-more :
    (m : IoManager) (fd : ℕ) (c c' : FdContext)
    → IsValid m
    → get_elem? m.fd_contexts fd ≡ some c
    → Proper c'
    → registered c' ≡ suc (registered c)
    → IsValid (record m {
      fd_contexts = set m.fd_contexts fd c';
      pending_event_count = increment m.pending_event_count;
    })
set-more m fd c c' v e p r = (
  omega (arith, length-set m.fd_contexts fd c', v.0),
  Proper-set m.fd_contexts fd c' v.1 p,
  omega (arith, total-set m.fd_contexts fd c c' e, v.2, r),
)

pub set-less :
    (m : IoManager) (fd : ℕ) (c c' : FdContext)
    → IsValid m
    → get_elem? m.fd_contexts fd ≡ some c
    → Proper c'
    → registered c ≡ suc (registered c')
    → IsValid (record m {
      fd_contexts = set m.fd_contexts fd c';
      pending_event_count = decrement m.pending_event_count;
    })
set-less m fd c c' v e p r = (
  omega (arith, length-set m.fd_contexts fd c', v.0),
  Proper-set m.fd_contexts fd c' v.1 p,
  omega (arith, total-set m.fd_contexts fd c c' e, v.2, r),
)

pub new_contexts-Proper : (i n : ℕ) → All Proper (new_contexts i n)
new_contexts-Proper i zero = tt
new_contexts-Proper i (suc n) = ((refl, refl), new_contexts-Proper (suc i) n)

pub length-new_contexts : (i n : ℕ) → length (new_contexts i n) ≡ n
length-new_contexts i zero = refl
length-new_contexts i (suc n) = ap suc (length-new_contexts (suc i) n)

pub total-new_contexts : (i n : ℕ) → total (new_contexts i n) ≡ 0
total-new_contexts i zero = refl
total-new_contexts i (suc n) = omega (arith, total-new_contexts (suc i) n)

Proper-append : (cs ds : List FdContext) → All Proper cs → All Proper ds → All Proper (cs ++ ds)
Proper-append [] ds a b = b
Proper-append (c ∷ cs) ds a b = (a.0, Proper-append cs ds a.1 b)

total-append : (cs ds : List FdContext) → total (cs ++ ds) ≡ total cs + total ds
total-append [] ds = omega arith
total-append (c ∷ cs) ds = omega (arith, total-append cs ds)

take_all : (n : ℕ) (cs : List FdContext) → length cs ≤ n → take n cs ≡ cs
take_all zero [] h = refl
take_all zero (c ∷ cs) h = absurd (omega arith)
take_all (suc n) [] h = refl
take_all (suc n) (c ∷ cs) h = ap (λ t. c ∷ t) (take_all n cs (omega arith))

-- Enlarged, the contexts are those from before and new ones.
context_resize-append :
    (size : ℕ) (cs : List FdContext)
    → length cs ≤ size
    → context_resize size cs ≡ cs ++ new_contexts (length cs) (size - length cs)
unfolding context_resize
context_resize-append size cs h = rw (take_all size cs h) refl

-- The contexts that `AddEvent` goes on with have one for its descriptor.
contexts_for-extended :
    (fd : ℕ) (cs : List FdContext)
    → 32 ≤ length cs
    → (n : ℕ) × (contexts_for fd cs ≡ cs ++ new_contexts (length cs) n) × (fd < length cs + n)
unfolding contexts_for
contexts_for-extended fd cs h = elim (Bool-cases (ltb fd (length cs))) [
  | inl there ↦ (0, rw there (sym (append-nil cs)), ground arith)
  | inr beyond ↦ (
    fd * 3 / 2 - length cs,
    rw beyond (context_resize-append (fd * 3 / 2) cs (ground arith)),
    ground arith,
  )
]

get_elem?_inside :
    (cs : List FdContext) (i : ℕ) → i < length cs → (c : FdContext) × (get_elem? cs i ≡ some c)
get_elem?_inside [] i h = absurd (omega arith)
get_elem?_inside (c ∷ cs) zero h = (c, refl)
get_elem?_inside (c ∷ cs) (suc i) h = get_elem?_inside cs i (omega arith)

pub contexts_for-IsValid :
    (m : IoManager) (fd : ℕ)
    → IsValid m
    → IsValid (record m { fd_contexts = contexts_for fd m.fd_contexts })
      × ((c : FdContext) × (get_elem? (contexts_for fd m.fd_contexts) fd ≡ some c))
contexts_for-IsValid m fd v =
    let (n, e, l) = contexts_for-extended fd m.fd_contexts v.0 in
    let cs = m.fd_contexts in
    let k = length cs in
    rw e (
      (
        omega (arith, v.0, length-append cs (new_contexts k n)),
        Proper-append cs (new_contexts k n) v.1 (new_contexts-Proper k n),
        v.2
            ∙ ap (λ t. t % 2 ^ 64)
                (omega (arith, total-append cs (new_contexts k n), total-new_contexts k n)),
      ),
      get_elem?_inside (cs ++ new_contexts k n) fd
          (omega (arith, l, length-append cs (new_contexts k n), length-new_contexts k n)),
    )

pub get_elem?-set_at :
    (cs : List FdContext) (i : ℕ) (c c' : FdContext)
    → get_elem? cs i ≡ some c
    → get_elem? (set cs i c') i ≡ some c'
get_elem?-set_at [] i c c' e = absurd (ground (arith, e))
get_elem?-set_at (x ∷ cs) zero c c' e = refl
get_elem?-set_at (x ∷ cs) (suc i) c c' e = get_elem?-set_at cs i c c' e

events_at-new : (k n i : ℕ) → events_at (new_contexts k n) i ≡ events_at [] i
events_at-new k zero i = refl
events_at-new k (suc n) zero = refl
events_at-new k (suc n) (suc i) = events_at-new (suc k) n i

events_at-append :
    (cs : List FdContext) (k n i : ℕ) → events_at (cs ++ new_contexts k n) i ≡ events_at cs i
events_at-append [] k n i = events_at-new k n i
events_at-append (c ∷ cs) k n zero = refl
events_at-append (c ∷ cs) k n (suc i) = events_at-append cs k n i

-- A new context waits for nothing.
pub events_at-contexts_for :
    (fd : ℕ) (cs : List FdContext) (i : ℕ)
    → 32 ≤ length cs
    → events_at (contexts_for fd cs) i ≡ events_at cs i
events_at-contexts_for fd cs i h =
    let (n, e, l) = contexts_for-extended fd cs h in
    ap (λ ds. events_at ds i) e ∙ events_at-append cs (length cs) n i

pub events_at-some :
    (cs : List FdContext) (i : ℕ) (c : FdContext)
    → get_elem? cs i ≡ some c
    → events_at cs i ≡ c.events
events_at-some cs i c e = rw (events_at, e) refl
