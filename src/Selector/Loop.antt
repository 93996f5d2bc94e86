-- ===== src/Selector/Loop.antt =====
-- The loops of selector.c that call the handlers: `handle_iteration`, `handle_block_notifications` and
-- `selector_destroy`, and `selector_set_interest_key`.
use tpe_protos.Common.{
  ℕ, zero, suc, ◌+◌, Bool, List, [], ◌∷◌, Option, none, some, ℤ, pos, if◌then◌else◌,
}
use tpe_protos.Stm.{Run, returns, aborts, outside, and_then}
use tpe_protos.Selector.{
  SelectorStatus, Item, FdSelector, has_read, has_write, item_used, item_at, selector_set_interest,
  selector_unregister_fd,
}

-- `struct selector_key`, on the selector that is passed on.
pub record SelectorKey (D : Type 0) : Type 0 where
  pub fd : ℤ
  pub user_data : Option D

unfoldable pub selector_set_interest_key :
    {H D : Type 0} → SelectorKey D → ℕ → FdSelector H D → Run (SelectorStatus × FdSelector H D)
selector_set_interest_key key interest s = selector_set_interest key.fd interest s

-- `struct fd_handler`: what a handler's functions do to the selector and to the world, with the key's
-- descriptor and data; a null function is `none`.
pub record FdHandler (H D World : Type 0) : Type 0 where
  pub handle_read :
      H → Option (ℕ → Option D → FdSelector H D × World → Run (FdSelector H D × World))
  pub handle_write :
      H → Option (ℕ → Option D → FdSelector H D × World → Run (FdSelector H D × World))
  pub handle_block :
      H → Option (ℕ → Option D → FdSelector H D × World → Run (FdSelector H D × World))
  pub handle_close :
      H → Option (ℕ → Option D → FdSelector H D × World → Run (FdSelector H D × World))

module _ {H D World : Type 0} (functions : FdHandler H D World) where
  -- A call under an assert that the function is there; an item without a handler is a null
  -- dereference.
  unfoldable pub call_handler :
      (H → Option (ℕ → Option D → FdSelector H D × World → Run (FdSelector H D × World)))
      → Option H
      → ℕ
      → Option D
      → FdSelector H D × World
      → Run (FdSelector H D × World)
  call_handler function none fd user_data s = outside
  call_handler function (some h) fd user_data s = go (function h)
    where
      go :
          Option (ℕ → Option D → FdSelector H D × World → Run (FdSelector H D × World))
          → Run (FdSelector H D × World)
      go none = aborts
      go (some f) = f fd user_data s

  -- The turn of the loop for item `i`; the second test reads the item as the first handler left it,
  -- while descriptor and data are those from before.
  unfoldable pub handle_item :
      (ℕ → Bool) → (ℕ → Bool) → ℕ → FdSelector H D × World → Run (FdSelector H D × World)
  handle_item slave_r slave_w i s = and_then (item_at s.0 i) (λ it. go it it.fd)
    where
      write : ℕ → Option D → FdSelector H D × World → Run (FdSelector H D × World)
      write fd user_data s =
          if slave_w i
          then and_then (item_at s.0 i) (λ it.
            if has_write it.interest
            then call_handler functions.handle_write it.handler fd user_data s
            else returns s)
          else returns s

      read : Item H D → ℕ → Run (FdSelector H D × World)
      read it fd =
          if slave_r fd
          then (if has_read it.interest
              then call_handler functions.handle_read it.handler fd it.user_data s
              else returns s)
          else returns s

      go : Item H D → Option ℕ → Run (FdSelector H D × World)
      go it none = returns s
      go it (some fd) = and_then (read it fd) (write fd it.user_data)

  unfoldable pub handle_items :
      (ℕ → Bool) → (ℕ → Bool) → ℕ → ℕ → FdSelector H D × World → Run (FdSelector H D × World)
  handle_items slave_r slave_w i zero s = returns s
  handle_items slave_r slave_w i (suc left) s =
      and_then (handle_item slave_r slave_w i s) (handle_items slave_r slave_w (i + 1) left)

  -- The sets are those that `pselect` leaves; the bound is read once, at the start.
  unfoldable pub handle_iteration :
      (ℕ → Bool) → (ℕ → Bool) → FdSelector H D × World → Run (FdSelector H D × World)
  handle_iteration slave_r slave_w s = handle_items slave_r slave_w 0 (s.0.max_fd + 1) s

  unfoldable pub handle_jobs : List ℕ → FdSelector H D × World → Run (FdSelector H D × World)
  handle_jobs [] s = returns s
  handle_jobs (job ∷ jobs) s =
      and_then (and_then (item_at s.0 job) (λ it. go it it.fd)) (handle_jobs jobs)
    where
      -- There is no assert: a null function is a null dereference.
      called : Item H D → ℕ → H → Run (FdSelector H D × World)
      called it fd h = elim (functions.handle_block h) [
        | none ↦ outside
        | some f ↦ f fd it.user_data s
      ]

      go : Item H D → Option ℕ → Run (FdSelector H D × World)
      go it none = returns s
      go it (some fd) = elim it.handler [ none ↦ outside | some h ↦ called it fd h ]

  unfoldable pub handle_block_notifications : FdSelector H D × World → Run (FdSelector H D × World)
  handle_block_notifications s =
      and_then (handle_jobs s.0.resolution_jobs s)
        (λ t. returns (record (t.0) { resolution_jobs = [] }, t.1))

  -- What unregistration calls: nothing where the function is null.
  unfoldable pub close_item :
      H → ℕ → Option D → FdSelector H D × World → Run (FdSelector H D × World)
  close_item h fd user_data s = elim (functions.handle_close h) [
    | none ↦ returns s
    | some f ↦ f fd user_data s
  ]

  -- The loop of `selector_destroy` over the table; the memory is freed behind it.
  unfoldable pub unregister_all : ℕ → ℕ → FdSelector H D × World → Run (FdSelector H D × World)
  unregister_all i zero s = returns s
  unregister_all i (suc left) s = and_then (item_at s.0 i) (λ it.
      and_then
        (if item_used it
          then and_then (selector_unregister_fd close_item (pos i) s) (λ r. returns r.1)
          else returns s)
        (unregister_all (i + 1) left))

  unfoldable pub selector_destroy : FdSelector H D × World → Run World
  selector_destroy s = and_then (unregister_all 0 s.0.fd_size s) (λ t. returns t.1)
