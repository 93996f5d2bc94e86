-- ===== src/Socks5/Interest.antt =====
-- `selector_set_interest` from a connection: what it leaves alone.
use mathlib.Core.Option.{some-injective}
use tpe_protos.Common.{
  ℕ, ◌<◌, ◌≡◌, refl, sym, ap, ◌∙◌, some, ℤ, pos, negsuc, length, get_elem?, set, ltb, ◌==◌, arith,
  length-set, Bool-cases, inl, inr, get_elem?-set_self, get_elem?-set_ne, ==_iff,
}
use tpe_protos.Stm.{returns, and_then}
use tpe_protos.Selector.{
  SelectorStatus, selector_success, selector_iargs, Item, FdSelector, items_max_size,
  selector_set_interest, item_at, item_used, items_update_fdset_for_fd,
}
use tpe_protos.Selector.Table.{get_elem?-found}
use tpe_protos.Socks5.World.{Handler, World}
use tpe_protos.Socks5.Calls.{set_interest}

abbrev pub Sel : Type 0
Sel = FdSelector Handler (Unit {0})

-- A descriptor that the table has a place for, or a negative one.
abbrev pub InTable : ℤ → Sel → Type 0
InTable (pos n) sel = n < length sel.fds
InTable (negsuc n) sel = Unit {0}

-- The same descriptors are registered with the same handlers.
pub record Keeps (sel sel' : Sel) : Type 0 where
  pub same_size : length sel'.fds ≡ length sel.fds
  pub same_item :
      (n : ℕ) (it : Item Handler (Unit {0}))
      → get_elem? sel.fds n ≡ some it
      → (it' : Item Handler (Unit {0})) × (get_elem? sel'.fds n ≡ some it')
        × (it'.fd ≡ it.fd)
        × (it'.handler ≡ it.handler)

pub Keeps-refl : (sel : Sel) → Keeps sel sel
Keeps-refl sel = record { same_size = refl; same_item = λ n it e. (it, e, refl, refl) }

pub Keeps-trans : (s t u : Sel) → Keeps s t → Keeps t u → Keeps s u
Keeps-trans s t u h k = record {
  same_size = k.same_size ∙ h.same_size;
  same_item = λ n it e.
      let (it1, e1, f1, g1) = h.same_item n it e in
      let (it2, e2, f2, g2) = k.same_item n it1 e1 in (it2, e2, f2 ∙ f1, g2 ∙ g1);
}

pub InTable-Keeps : (fd : ℤ) (s t : Sel) → Keeps s t → InTable fd s → InTable fd t
InTable-Keeps (pos n) s t h i = omega (arith, h.same_size)
InTable-Keeps (negsuc n) s t h i = tt

update_fds :
    (it : Item Handler (Unit {0})) (sel : Sel) → (items_update_fdset_for_fd it sel).fds ≡ sel.fds
unfolding items_update_fdset_for_fd
update_fds it sel = ground arith

with_interest : ℕ → ℕ → Item Handler (Unit {0}) → Sel → Sel
with_interest n interest it sel =
    let new = record it { interest = interest } in
    items_update_fdset_for_fd new (record sel { fds = set sel.fds n new })

with_interest-Keeps :
    (n interest : ℕ) (it : Item Handler (Unit {0})) (sel : Sel)
    → get_elem? sel.fds n ≡ some it
    → n < length sel.fds
    → Keeps sel (with_interest n interest it sel)
unfolding with_interest
with_interest-Keeps n interest it sel e h = record {
  same_size = ap length fds ∙ length-set sel.fds n new;
  same_item = λ m old f. elim (Bool-cases (m == n)) [
    | inl t ↦
        let q : m ≡ n = (==_iff m n).0 t in
        let o : old ≡ it = some-injective _ _ (sym f ∙ ap (get_elem? sel.fds) q ∙ e) in
        (
          new,
          ap (λ l. get_elem? l m) fds
              ∙ ap (get_elem? (set sel.fds n new)) q
              ∙ get_elem?-set_self sel.fds n new h,
          ap (λ i. i.fd) (sym o),
          ap (λ i. i.handler) (sym o),
        )
    | inr t ↦ (
      old,
      ap (λ l. get_elem? l m) fds ∙ get_elem?-set_ne sel.fds new (λ q. ground arith) ∙ f,
      refl,
      refl,
    )
  ];
}
  where
    new : Item Handler (Unit {0})
    new = record it { interest = interest }

    fds : (with_interest n interest it sel).fds ≡ set sel.fds n new
    fds = update_fds new (record sel { fds = set sel.fds n new })

-- It returns, the process is as before, and the registrations are kept.
pub set_interest-returns :
    (fd : ℤ) (interest : ℕ) (sel : Sel) (w : World)
    → InTable fd sel
    → (status : SelectorStatus) × (sel' : Sel) × (set_interest fd interest (sel, w)
        ≡ returns (status, (sel', w)))
      × Keeps sel sel'
unfolding set_interest selector_set_interest item_at and_then with_interest
set_interest-returns (negsuc n) interest sel w h = (selector_iargs, sel, refl, Keeps-refl sel)
set_interest-returns (pos n) interest sel w h =
    let (it, e) = get_elem?-found sel.fds n h in
    elim (Bool-cases (ltb n items_max_size)) [
      | inl small ↦ elim (Bool-cases (item_used it)) [
        | inl used ↦ (
          selector_success,
          with_interest n interest it sel,
          rw (small, e, item_at, used),
          with_interest-Keeps n interest it sel e h,
        )
        | inr free ↦ (selector_iargs, sel, rw (small, e, item_at, free), Keeps-refl sel)
      ]
      | inr big ↦ (selector_iargs, sel, rw big, Keeps-refl sel)
    ]
