-- ===== src/Selector.antt =====
-- src/server/utils/selector.c and include/selector.h: the multiplexer, a table of items under their
-- descriptors with the two sets for `pselect`. The signal set-up, `pselect` itself, the clock and the
-- mutex are not modelled; the sets that `pselect` leaves are arguments.
pub mod Capacity
pub mod Loop
pub mod Table
use tpe_protos.Common.{
  ℕ, zero, suc, ◌+◌, ◌-◌, ◌/◌, ◌%◌, ◌^◌, Bool, true, false, not, ◌&&◌, List, [], ◌∷◌, ◌++◌, Option,
  none, some, ℤ, pos, negsuc, ltb, ◌==◌, if◌then◌else◌, get_elem?, set, take, length,
}
use tpe_protos.Stm.{Run, returns, aborts, outside, and_then}

-- `selector_status`
pub data SelectorStatus : Type 0 where
  selector_success : SelectorStatus
  selector_enomem : SelectorStatus
  selector_maxfd : SelectorStatus
  selector_iargs : SelectorStatus
  selector_fdinuse : SelectorStatus
  selector_io : SelectorStatus

-- `FD_SETSIZE`
abbrev pub items_max_size : ℕ
items_max_size = 1024

abbrev pub op_noop : ℕ
op_noop = 0

-- `interest & OP_READ`
abbrev pub has_read : ℕ → Bool
has_read interest = interest % 2 == 1

-- `interest & OP_WRITE`
abbrev pub has_write : ℕ → Bool
has_write interest = interest / 4 % 2 == 1

-- `struct item`, with null pointers as `none`; the descriptor `none` is `FD_UNUSED`.
pub record Item (H D : Type 0) : Type 0 where
  pub fd : Option ℕ
  pub interest : ℕ
  pub handler : Option H
  pub user_data : Option D

-- `struct fdselector`: the empty list is the array that is not allocated yet. A job of
-- `resolution_jobs` is the descriptor that it is for.
pub record FdSelector (H D : Type 0) : Type 0 where
  pub fds : List (Item H D)
  pub fd_size : ℕ
  pub max_fd : ℕ
  pub master_r : ℕ → Bool
  pub master_w : ℕ → Bool
  pub resolution_jobs : List ℕ

-- The loop of `next_capacity`: the bits of `tmp`, in at most `fuel` turns.
unfoldable pub bits_of : ℕ → ℕ → ℕ
bits_of zero tmp = 0
bits_of (suc fuel) tmp = let rest = bits_of fuel (tmp / 2) in if tmp == 0 then 0 else rest + 1

unfoldable pub next_capacity : ℕ → ℕ
next_capacity n =
    let tmp = 2 ^ bits_of n n % 2 ^ 64 in
    (if ltb items_max_size tmp then items_max_size else tmp) + 1

-- `SIZE_MAX`, and the size of an item
abbrev pub size_max : ℕ
size_max = 2 ^ 64 - 1

abbrev pub element_size : ℕ
element_size = 24

-- `FD_SET` and `FD_CLR`
unfoldable pub fd_put : Bool → ℕ → (ℕ → Bool) → ℕ → Bool
fd_put b fd s i = if i == fd then b else s i

module _ {H D : Type 0} where
  unfoldable pub item_used : Item H D → Bool
  item_used it = go it.fd
    where
      go : Option ℕ → Bool
      go none = false
      go (some fd) = true

  unfoldable pub item_init : Item H D → Item H D
  item_init it = record it { fd = none }

  -- `items_init` on the new end of the array, from index `last` on, over what is in the memory.
  unfoldable pub items_init : (ℕ → Item H D) → ℕ → ℕ → List (Item H D)
  items_init memory last zero = []
  items_init memory last (suc n) = item_init (memory last) ∷ items_init memory (last + 1) n

  -- The greatest descriptor of the items in use, and `max` where it is greater.
  unfoldable pub max_of : ℕ → List (Item H D) → ℕ
  max_of max [] = max
  max_of max (it ∷ items) = max_of (greater it.fd) items
    where
      greater : Option ℕ → ℕ
      greater none = max
      greater (some fd) = if ltb max fd then fd else max

  unfoldable pub items_max_fd : FdSelector H D → ℕ
  items_max_fd s = max_of 0 (take (s.max_fd + 1) s.fds)

  -- An item out of use has no descriptor to clear.
  unfoldable pub items_update_fdset_for_fd : Item H D → FdSelector H D → FdSelector H D
  items_update_fdset_for_fd it s = go it.fd
    where
      go : Option ℕ → FdSelector H D
      go none = s
      go (some fd) = record s {
        master_r = fd_put (has_read it.interest) fd s.master_r;
        master_w = fd_put (has_write it.interest) fd s.master_w;
      }

  -- `memory` is what stands in the memory that `calloc` or `realloc` gives.
  unfoldable pub ensure_capacity :
      Bool → (ℕ → Item H D) → ℕ → FdSelector H D → SelectorStatus × FdSelector H D
  ensure_capacity allocated memory n s =
      let new_size = next_capacity n in
      if ltb n s.fd_size
      then (selector_success, s)
      else if ltb items_max_size n
      then (selector_maxfd, s)
      else if ltb (size_max / element_size) new_size
      then (selector_enomem, s)
      else if allocated
      then (
        selector_success,
        record s {
          fds = s.fds ++ items_init memory s.fd_size (new_size - s.fd_size);
          fd_size = new_size;
        },
      )
      else (selector_enomem, s)

  -- The table of no elements that `memset` leaves, grown; `none` is the null pointer.
  unfoldable pub selector_new : Bool → Bool → (ℕ → Item H D) → ℕ → Option (FdSelector H D)
  selector_new allocated table_allocated memory initial_elements =
      if allocated
      then grown (ensure_capacity table_allocated memory initial_elements empty)
      else none
    where
      empty : FdSelector H D
      empty = record {
        fds = [];
        fd_size = 0;
        max_fd = 0;
        master_r = λ i. false;
        master_w = λ i. false;
        resolution_jobs = [];
      }

      grown : SelectorStatus × FdSelector H D → Option (FdSelector H D)
      grown (selector_success, s) = some s
      grown (selector_enomem, s) = none
      grown (selector_maxfd, s) = none
      grown (selector_iargs, s) = none
      grown (selector_fdinuse, s) = none
      grown (selector_io, s) = none

  -- The item at `fd`.
  unfoldable pub item_at : FdSelector H D → ℕ → Run (Item H D)
  item_at s fd = read (get_elem? s.fds fd)
    where
      read : Option (Item H D) → Run (Item H D)
      read none = outside
      read (some it) = returns it

  -- Step 2 of `selector_register`.
  unfoldable pub put_item :
      ℕ → H → ℕ → Option D → FdSelector H D → Run (SelectorStatus × FdSelector H D)
  put_item fd handler interest user_data s = and_then (item_at s fd) (λ it.
      let new : Item H D = record {
        fd = some fd;
        interest = interest;
        handler = some handler;
        user_data = user_data;
      } in
      if item_used it
      then returns (selector_fdinuse, s)
      else returns (
        selector_success,
        items_update_fdset_for_fd new (record s {
          fds = set s.fds fd new;
          max_fd = if ltb s.max_fd fd then fd else s.max_fd;
        }),
      ))

  -- On a selector that is there.
  unfoldable pub selector_register :
      Bool
      → (ℕ → Item H D)
      → ℤ
      → Option H
      → ℕ
      → Option D
      → FdSelector H D
      → Run (SelectorStatus × FdSelector H D)
  selector_register allocated memory (negsuc n) handler interest user_data s =
      returns (selector_iargs, s)
  selector_register allocated memory (pos fd) none interest user_data s =
      returns (selector_iargs, s)
  selector_register allocated memory (pos fd) (some handler) interest user_data s =
      if ltb fd items_max_size
      then (if ltb s.fd_size fd
          then go (ensure_capacity allocated memory fd s)
          else put_item fd handler interest user_data s)
      else returns (selector_iargs, s)
    where
      go : SelectorStatus × FdSelector H D → Run (SelectorStatus × FdSelector H D)
      go (selector_success, s') = put_item fd handler interest user_data s'
      go (selector_enomem, s') = returns (selector_enomem, s')
      go (selector_maxfd, s') = returns (selector_maxfd, s')
      go (selector_iargs, s') = returns (selector_iargs, s')
      go (selector_fdinuse, s') = returns (selector_fdinuse, s')
      go (selector_io, s') = returns (selector_io, s')

  unfoldable pub selector_set_interest :
      ℤ → ℕ → FdSelector H D → Run (SelectorStatus × FdSelector H D)
  selector_set_interest (negsuc n) interest s = returns (selector_iargs, s)
  selector_set_interest (pos fd) interest s =
      if ltb fd items_max_size
      then and_then (item_at s fd) (λ it.
        let new = record it { interest = interest } in
        if item_used it
        then returns
            (selector_success, items_update_fdset_for_fd new (record s { fds = set s.fds fd new }))
        else returns (selector_iargs, s))
      else returns (selector_iargs, s)

  -- `close` is what the `handle_close` of the item's handler does to the selector and to the world,
  -- with the key's descriptor and data; a handler that is null there does nothing.
  unfoldable pub selector_unregister_fd :
      {World : Type 0}
      → (H → ℕ → Option D → FdSelector H D × World → Run (FdSelector H D × World))
      → ℤ
      → FdSelector H D × World
      → Run (SelectorStatus × (FdSelector H D × World))
  selector_unregister_fd close (negsuc n) s = returns (selector_iargs, s)
  selector_unregister_fd {World = World} close (pos fd) s =
      if ltb fd items_max_size
      then and_then (item_at s.0 fd)
          (λ it. if item_used it then closed it it.handler else returns (selector_iargs, s))
      else returns (selector_iargs, s)
    where
      forget : FdSelector H D × World → Run (SelectorStatus × (FdSelector H D × World))
      forget s = and_then (item_at s.0 fd) (λ it.
          let noop = record it { interest = op_noop } in
          let s1 = items_update_fdset_for_fd noop s.0 in
          let s2 = record s1 {
            fds =
                set s1.fds fd
                  (record { fd = none; interest = 0; handler = none; user_data = none });
          } in
          returns (selector_success, (record s2 { max_fd = items_max_fd s2 }, s.1)))

      -- A used item without a handler would be a null dereference.
      closed : Item H D → Option H → Run (SelectorStatus × (FdSelector H D × World))
      closed it none = outside
      closed it (some h) = and_then (close h fd it.user_data s) forget

  -- The job in front, under the mutex; `none`: there is no memory for it.
  unfoldable pub selector_notify_block : Bool → ℕ → FdSelector H D → SelectorStatus × FdSelector H D
  selector_notify_block allocated fd s =
      if allocated
      then (selector_success, record s { resolution_jobs = fd ∷ s.resolution_jobs })
      else (selector_enomem, s)
