-- ===== src/Tests/Selectors.antt =====
-- A selector with a table of three items, none in use, and one with descriptor 0 registered.
use mathlib.Core.Option.{some-injective, none-ne-some}
use mathlib.Core.Path.{subst}
use tpe_protos.Common.{
  ℕ, zero, suc, ◌==◌, ◌≡◌, refl, [], ◌∷◌, replicate, true, false, none, some, pos, get_elem?, arith,
}
use tpe_protos.Stm.{returns}
use tpe_protos.Selector.{
  SelectorStatus, selector_success, Item, FdSelector, selector_register, selector_set_interest,
  item_used,
}
use tpe_protos.Selector.Table.{
  IsValid, Registers, Reinterests, registered, wants, in_use, ItemIsValid, selector_register_lem,
  selector_set_interest_lem,
}

abbrev unused : Item ℕ ℕ
unused = record { fd = none; interest = 0; handler = none; user_data = none }

abbrev empty : FdSelector ℕ ℕ
empty = record {
  fds = replicate 3 unused;
  fd_size = 3;
  max_fd = 0;
  master_r = λ i. false;
  master_w = λ i. false;
  resolution_jobs = [];
}

unused-IsValid : (i : ℕ) → ItemIsValid empty i unused
unfolding wants item_used
unused-IsValid i = record { own = λ fd e. absurd (none-ne-some _ e); in_r = refl; in_w = refl }

get_elem?-replicate :
    (n i : ℕ) (it : Item ℕ ℕ) → get_elem? (replicate n unused) i ≡ some it → unused ≡ it
get_elem?-replicate zero i it e = absurd (none-ne-some _ e)
get_elem?-replicate (suc n) zero it e = some-injective _ _ e
get_elem?-replicate (suc n) (suc i) it e = get_elem?-replicate n i it e

empty-IsValid : IsValid empty
empty-IsValid = record {
  sized = refl;
  items = λ i it e. subst (ItemIsValid empty i) (get_elem?-replicate 3 i it e) (unused-IsValid i);
}

abbrev reader : Item ℕ ℕ
reader = record { fd = some 0; interest = 1; handler = some 7; user_data = some 8 }

abbrev one : FdSelector ℕ ℕ
one = record {
  fds = reader ∷ [];
  fd_size = 1;
  max_fd = 0;
  master_r = λ i. i == 0;
  master_w = λ i. false;
  resolution_jobs = [];
}

reader-IsValid : ItemIsValid one 0 reader
unfolding wants item_used
reader-IsValid = record {
  own = λ fd e. let z = some-injective _ _ e in (ground arith, ground arith);
  in_r = refl;
  in_w = refl;
}

one-IsValid : IsValid one
one-IsValid = record { sized = refl; items = items }
  where
    items : (i : ℕ) (it : Item ℕ ℕ) → get_elem? (reader ∷ []) i ≡ some it → ItemIsValid one i it
    items zero it e = subst (ItemIsValid one 0) (some-injective _ _ e) reader-IsValid
    items (suc i) it e = absurd (none-ne-some _ e)

selector_set_interest_lem_example :
    (s' : FdSelector ℕ ℕ) × ((selector_set_interest (pos 0) 5 one ≡ returns (selector_success, s'))
      × Reinterests one 0 5 reader s')
unfolding registered in_use item_used
selector_set_interest_lem_example =
    selector_set_interest_lem one 0 5 reader one-IsValid (ground arith) (ground arith) refl

selector_register_lem_example :
    (r : SelectorStatus × FdSelector ℕ ℕ) × ((selector_register true
          (λ i. unused)
          (pos 2)
          (some 7)
          1
          (some 8)
          empty
        ≡ returns r)
      × Registers empty 2 1 7 (some 8) r)
selector_register_lem_example =
    selector_register_lem true (λ i. unused) empty 2 1 7 (some 8) empty-IsValid (ground arith)
      (ground arith)
