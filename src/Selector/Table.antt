-- ===== src/Selector/Table.antt =====
-- The table of selector.c: the descriptors registered in it, and the sets for `pselect`.
use mathlib.Core.Option.{some-injective, none-ne-some}
use mathlib.Core.Bool.{true≢false}
use mathlib.Core.Path.{subst}
use tpe_protos.Common.{
  ℕ, zero, suc, ◌≤◌, ◌<◌, ◌≡◌, ◌≢◌, refl, ap, sym, ◌∙◌, Bool, true, false, List, [], ◌∷◌, Option,
  none, some, pos, ltb, ◌==◌, if◌then◌else◌, get_elem?, set, get_elem?-set_self, get_elem?-set_ne,
  length, length-set, arith, Bool-cases, ==_iff, inl, inr,
}
use tpe_protos.Stm.{returns, and_then}
use tpe_protos.Selector.{
  SelectorStatus, selector_success, selector_fdinuse, Item, FdSelector, items_max_size, has_read,
  has_write, fd_put, item_used, items_update_fdset_for_fd, item_at, put_item, selector_register,
  selector_set_interest,
}

pub get_elem?-found {ℓ} :
    {A : Type ℓ} (xs : List A) (i : ℕ) → i < length xs → (x : A) × (get_elem? xs i ≡ some x)
get_elem?-found [] i h = absurd (omega arith)
get_elem?-found (x ∷ xs) zero h = (x, refl)
get_elem?-found (x ∷ xs) (suc i) h = get_elem?-found xs i (omega arith)

module _ {H D : Type 0} where
  -- What an item asks of `pselect`.
  unfoldable pub wants : (ℕ → Bool) → Item H D → Bool
  wants has it = if item_used it then has it.interest else false

  pub record ItemIsValid (s : FdSelector H D) (i : ℕ) (it : Item H D) : Type 0 where
    pub own : (fd : ℕ) → it.fd ≡ some fd → (fd ≡ i) × (i ≤ s.max_fd)
    pub in_r : s.master_r i ≡ wants has_read it
    pub in_w : s.master_w i ≡ wants has_write it

  pub record IsValid (s : FdSelector H D) : Type 0 where
    pub sized : length s.fds ≡ s.fd_size
    pub items : (i : ℕ) (it : Item H D) → get_elem? s.fds i ≡ some it → ItemIsValid s i it

  -- The table with the item of `fd` replaced, as registration and a change of interest leave it.
  placed : ℕ → ℕ → Option H → Option D → FdSelector H D → FdSelector H D
  placed fd interest handler user_data s =
      let it : Item H D = record {
        fd = some fd;
        interest = interest;
        handler = handler;
        user_data = user_data;
      } in
      items_update_fdset_for_fd it
        (record s { fds = set s.fds fd it; max_fd = if ltb s.max_fd fd then fd else s.max_fd })

  placed-IsValid :
      (s : FdSelector H D) (fd interest : ℕ) (h : Option H) (d : Option D)
      → IsValid s
      → fd < s.fd_size
      → IsValid (placed fd interest h d s)
  unfolding placed items_update_fdset_for_fd wants item_used fd_put
  placed-IsValid s fd interest h d v l = record {
    sized = length-set s.fds fd new ∙ v.sized;
    items = λ i old f. elim (Bool-cases (i == fd)) [
      | inl t ↦ same i old f ((==_iff i fd).0 t) t
      | inr t ↦ other i old (λ e. ground arith) t f
    ];
  }
    where
      new : Item H D
      new = record { fd = some fd; interest = interest; handler = h; user_data = d }

      same :
          (i : ℕ) (old : Item H D)
          → get_elem? (set s.fds fd new) i ≡ some old
          → i ≡ fd
          → (i == fd) ≡ true
          → ItemIsValid (placed fd interest h d s) i old
      same i old f e t =
          let n : old ≡ new = some-injective _ _ (
            sym f
            ∙ ap (get_elem? (set s.fds fd new)) e
            ∙ get_elem?-set_self s.fds fd new (ground (arith, v.sized))) in
          subst (λ o. ItemIsValid (placed fd interest h d s) i o) (sym n)
            (record {
              own = λ k q. let z = some-injective _ _ q in (ground arith, ground arith);
              in_r = rw t;
              in_w = rw t;
            })

      other :
          (i : ℕ) (old : Item H D)
          → i ≢ fd
          → (i == fd) ≡ false
          → get_elem? (set s.fds fd new) i ≡ some old
          → ItemIsValid (placed fd interest h d s) i old
      other i old ne t f =
          let w = v.items i old (sym (get_elem?-set_ne s.fds new (λ e. ne (sym e))) ∙ f) in
          record {
            own = λ k e. let z = w.own k e in (z.0, ground (arith, z.1));
            in_r = rw t w.in_r;
            in_w = rw t w.in_w;
          }

  unfoldable pub in_use : Option (Item H D) → Option (Item H D)
  in_use none = none
  in_use (some it) = if item_used it then some it else none

  -- The item registered under a descriptor.
  unfoldable pub registered : FdSelector H D → ℕ → Option (Item H D)
  registered s i = in_use (get_elem? s.fds i)

  -- A registration: the status, and the selector with it.
  pub data Registers (s : FdSelector H D) (fd interest : ℕ) (h : H) (d : Option D)
      : SelectorStatus × FdSelector H D → Type 0 where
    taken :
        (it : Item H D)
        → registered s fd ≡ some it
        → Registers s fd interest h d (selector_fdinuse, s)
    entered :
        (s' : FdSelector H D)
        → registered s fd ≡ none
        → IsValid s'
        → registered s' fd
          ≡ some (record { fd = some fd; interest = interest; handler = some h; user_data = d })
        → ((i : ℕ) → i ≢ fd → registered s' i ≡ registered s i)
        → Registers s fd interest h d (selector_success, s')

  registered-placed :
      (s : FdSelector H D) (fd interest : ℕ) (h : Option H) (d : Option D)
      → fd < length s.fds
      → registered (placed fd interest h d s) fd
        ≡ some (record { fd = some fd; interest = interest; handler = h; user_data = d })
  unfolding registered in_use placed items_update_fdset_for_fd item_used
  registered-placed s fd interest h d l = rw (
      get_elem?-set_self s.fds fd
        (record { fd = some fd; interest = interest; handler = h; user_data = d }) l)

  registered-placed_ne :
      (s : FdSelector H D) (fd interest i : ℕ) (h : Option H) (d : Option D)
      → i ≢ fd
      → registered (placed fd interest h d s) i ≡ registered s i
  unfolding registered placed items_update_fdset_for_fd
  registered-placed_ne s fd interest i h d ne = rw (
      get_elem?-set_ne s.fds
        (record { fd = some fd; interest = interest; handler = h; user_data = d })
        (λ e. ne (sym e)))

  put_item_lem :
      (s : FdSelector H D) (fd interest : ℕ) (h : H) (d : Option D)
      → IsValid s
      → fd < s.fd_size
      → (r : SelectorStatus × FdSelector H D) × ((put_item fd h interest d s ≡ returns r)
          × Registers s fd interest h d r)
  unfolding put_item item_at and_then registered in_use placed
  put_item_lem s fd interest h d v l =
      let g = get_elem?-found s.fds fd (ground (arith, v.sized)) in
      elim (Bool-cases (item_used g.0)) [
        | inl u ↦ ((selector_fdinuse, s), (rw (g.1, u) refl, taken g.0 (rw (g.1, u) refl)))
        | inr u ↦ (
          (selector_success, placed fd interest (some h) d s),
          (
            rw (g.1, u) refl,
            entered (placed fd interest (some h) d s) (rw (g.1, u) refl)
                (placed-IsValid s fd interest (some h) d v l)
                (registered-placed s fd interest (some h) d (ground (arith, v.sized)))
                (λ i ne. registered-placed_ne s fd interest i (some h) d ne),
          ),
        )
      ]

  -- In a valid table that reaches the descriptor, below the limit of `select`, registration
  -- returns. Where the descriptor is registered the status says so and nothing changes; where it
  -- is not, the table stays valid, the descriptor is registered with the given handler, interest
  -- and data, and no other descriptor is touched. Valid means that every item in use stands at its
  -- own descriptor, below `max_fd`, and that the two sets for `pselect` are what the items ask
  -- for.
  pub selector_register_lem :
      (allocated : Bool) (memory : ℕ → Item H D) (s : FdSelector H D) (fd interest : ℕ) (h : H)
      (d : Option D)
      → IsValid s
      → fd < s.fd_size
      → fd < items_max_size
      → (r : SelectorStatus × FdSelector H D) × ((selector_register allocated memory
              (pos fd)
              (some h)
              interest
              d
              s
            ≡ returns r)
          × Registers s fd interest h d r)
  unfolding selector_register
  selector_register_lem allocated memory s fd interest h d v l m =
      let p = put_item_lem s fd interest h d v l in
      let a : ltb fd items_max_size ≡ true = ground arith in
      let b : ltb s.fd_size fd ≡ false = ground arith in (p.0, (rw (a, b) p.1.0, p.1.1))

  -- A change of interest: the selector behind it.
  pub record Reinterests (s : FdSelector H D) (fd interest : ℕ) (it : Item H D)
      (s' : FdSelector H D) : Type 0 where
    pub still_valid : IsValid s'
    pub changed : registered s' fd ≡ some (record it { interest = interest })
    pub others : (i : ℕ) → i ≢ fd → registered s' i ≡ registered s i

  in_use-some :
      (o : Option (Item H D)) (it : Item H D)
      → in_use o ≡ some it
      → (o ≡ some it) × (item_used it ≡ true)
  unfolding in_use
  in_use-some none it e = absurd (none-ne-some _ e)
  in_use-some (some a) it e = elim (Bool-cases (item_used a)) [
    | inl t ↦
        let y : in_use (some a) ≡ some a = rw t in
        let z : a ≡ it = some-injective _ _ (sym y ∙ e) in
        (ap some z, subst (λ b. item_used b ≡ true) z t)
    | inr t ↦ let y : in_use (some a) ≡ none = rw t in absurd (none-ne-some _ (sym y ∙ e))
  ]

  item_used-some : (it : Item H D) → item_used it ≡ true → (k : ℕ) × (it.fd ≡ some k)
  unfolding item_used
  item_used-some it u = go it.fd refl
    where
      go : (o : Option ℕ) → it.fd ≡ o → (k : ℕ) × (it.fd ≡ some k)
      go none e = let y : item_used it ≡ false = rw e in absurd (true≢false (sym u ∙ y))
      go (some k) e = (k, e)

  -- In a valid table, a change of interest for a registered descriptor below the limit of `select`
  -- succeeds: the table stays valid, so that the sets for `pselect` follow, the item has the new
  -- interest, and no other descriptor is touched.
  pub selector_set_interest_lem :
      (s : FdSelector H D) (fd interest : ℕ) (it : Item H D)
      → IsValid s
      → fd < s.fd_size
      → fd < items_max_size
      → registered s fd ≡ some it
      → (s' : FdSelector H D) × ((selector_set_interest (pos fd) interest s
            ≡ returns (selector_success, s'))
          × Reinterests s fd interest it s')
  unfolding selector_set_interest registered item_at and_then placed items_update_fdset_for_fd
  selector_set_interest_lem s fd interest it v l m reg =
      let a : ltb fd items_max_size ≡ true = ground arith in
      let g = in_use-some (get_elem? s.fds fd) it reg in
      let k = item_used-some it g.1 in
      let o = (v.items fd it g.0).own k.0 k.1 in
      let f : it.fd ≡ some fd = k.1 ∙ ap some o.0 in
      let mx : ltb s.max_fd fd ≡ false = ground (arith, o.1) in
      (
        placed fd interest it.handler it.user_data s,
        (
          rw (a, g.0, g.1) (rw (f, mx)),
          record {
            still_valid = placed-IsValid s fd interest it.handler it.user_data v l;
            changed =
                registered-placed s fd interest it.handler it.user_data (ground (arith, v.sized))
                ∙ ap (λ o. some (record it { fd = o; interest = interest })) (sym f);
            others = λ i ne. registered-placed_ne s fd interest i it.handler it.user_data ne;
          },
        ),
      )
