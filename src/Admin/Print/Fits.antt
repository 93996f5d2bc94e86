-- ===== src/Admin/Print/Fits.antt =====
-- Every printed text ends inside its array, which keeps its size.
use tpe_protos.Common.{
  ℕ, zero, suc, ◌+◌, ◌-◌, ◌%◌, ◌≤◌, ◌<◌, ◌≡◌, refl, ap, ◌∙◌, false, List, [], ◌∷◌, ◌++◌, lt→ltb,
  some, take, drop, length, length-append, length-take, append_assoc, c_string, codes, arith,
  Bool-cases, inl, inr,
}
use tpe_protos.Buffer.{copy_to}
use tpe_protos.Buffer.Inv.{length-copy_to}
use tpe_protos.Admin.AccessRegister.History
use tpe_protos.Users.{Chain, Table}
use tpe_protos.Admin.Metrics.{ServerMetrics}
use tpe_protos.Admin.AccessRegister.{AccessEntry, AccessRegister, register_max_entries}
use tpe_protos.Admin.Print.{
  snprintf, metrics_print, print_entries, print_end, access_register_print, print_chain,
  print_chains, auth_list_users, overflows, heading, entry_row,
}
use tpe_protos.Selector.Table.{get_elem?-found}

-- An array of `n` characters with a zero among them.
pub record EndsIn (n : ℕ) (response : List ℕ) : Type 0 where
  pub sized : length response ≡ n
  pub ends : length (c_string response) < n

length-c_string : (xs ys : List ℕ) → length (c_string (xs ++ 0 ∷ ys)) ≤ length xs
unfolding c_string
length-c_string [] ys = omega arith
length-c_string (x ∷ xs) ys = ground (arith, length-c_string xs ys)

rejoin : (xs ys zs : List ℕ) → xs ++ ((ys ++ 0 ∷ []) ++ zs) ≡ (xs ++ ys) ++ 0 ∷ zs
rejoin xs ys zs = simp append_assoc

copy_to-EndsIn :
    (mem : List ℕ) (at : ℕ) (text : List ℕ)
    → at + length text < length mem
    → EndsIn (length mem) (copy_to mem at (text ++ 0 ∷ []))
unfolding copy_to
copy_to-EndsIn mem at text h =
    let rest = drop (at + length (text ++ 0 ∷ [])) mem in
    record {
      sized = length-copy_to mem at (text ++ 0 ∷ []) (omega (arith, length-append text (0 ∷ [])));
      ends = omega (
        arith,
        ap (λ l. length (c_string l)) (rejoin (take at mem) text rest),
        length-c_string (take at mem ++ text) rest,
        length-append (take at mem) text,
        length-take at mem,
      );
    }

pub snprintf-EndsIn :
    (response : List ℕ) (written : ℕ) (text : List ℕ)
    → written < length response
    → EndsIn (length response) (snprintf response written text)
unfolding snprintf
snprintf-EndsIn response written text h =
    let e : length response - written ≡ suc (length response - written - 1) = omega arith in
    rw (e, snprintf)
      (copy_to-EndsIn response written (take (length response - written - 1) text)
        (omega (arith, length-take (length response - written - 1) text)))

pub metrics_print-EndsIn :
    (m : ServerMetrics) (response : List ℕ)
    → 0 < length response
    → EndsIn (length response) (metrics_print m response)
unfolding metrics_print
metrics_print-EndsIn m response h = snprintf-EndsIn response 0 _ h

module _ (n : ℕ) where
  snprintf-Ends :
      (response : List ℕ) (written : ℕ) (text : List ℕ)
      → length response ≡ n
      → written < n
      → EndsIn n (snprintf response written text)
  snprintf-Ends response written text e h =
      let s = snprintf-EndsIn response written text (omega (arith, e)) in
      record { sized = s.sized ∙ e; ends = omega (arith, s.ends, e) }

  print_end-EndsIn :
      (response : List ℕ) (written : ℕ)
      → length response ≡ n
      → written < n
      → EndsIn n (print_end response written)
  print_end-EndsIn response written e h =
      rw (lt→ltb written (length response) (omega (arith, e)))
        (snprintf-Ends response written (codes "END\n") e h)

  -- Something was written so far, and where the printing stops here the array is ended.
  print_chain_lem :
      (chain : Chain) (response : List ℕ) (written : ℕ)
      → length response ≡ n
      → written < n
      → (length (print_chain chain response written).0 ≡ n)
        × ((print_chain chain response written).1 < n)
        × ((print_chain chain response written).2 ≡ false
            → EndsIn n (print_chain chain response written).0)
  unfolding print_chain
  print_chain_lem [] response written e h = (e, h, λ q. cc)
  print_chain_lem (c ∷ chain) response written e h =
      let text = c.username ++ 10 ∷ [] in
      let s = snprintf-Ends response written text e h in
      elim (Bool-cases (overflows response written (length text))) [
        | inl over ↦ rw over (s.sized, h, λ q. s)
        | inr fits ↦ rw fits (
            print_chain_lem chain (snprintf response written text) (written + length text) s.sized
              (ground (arith, e)))
      ]

  print_chains-EndsIn :
      (table : Table) (response : List ℕ) (written : ℕ)
      → length response ≡ n
      → written < n
      → EndsIn n (print_chains table response written)
  unfolding print_chains
  print_chains-EndsIn [] response written e h = print_end-EndsIn response written e h
  print_chains-EndsIn (chain ∷ table) response written e h =
      let (e', h', stop) = print_chain_lem chain response written e h in
      elim (Bool-cases (print_chain chain response written).2) [
        | inl more ↦ rw more (print_chains-EndsIn table _ _ e' h')
        | inr last ↦ rw last (stop last)
      ]

  print_entries_lem :
      (entries : List AccessEntry) (count idx : ℕ) (response : List ℕ) (written : ℕ)
      → length entries ≡ register_max_entries
      → idx < register_max_entries
      → length response ≡ n
      → written < n
      → (r : List ℕ × ℕ) × (print_entries entries count idx response written ≡ some r)
        × (length r.0 ≡ n)
        × (r.1 < n)
  unfolding print_entries
  print_entries_lem entries zero idx response written l i e h = ((response, written), refl, e, h)
  print_entries_lem entries (suc count) idx response written l i e h =
      let (entry, f) = get_elem?-found entries idx (omega (arith, l)) in
      let text = entry_row entry in
      let s = snprintf-Ends response written text e h in
      elim (Bool-cases (overflows response written (length text))) [
        | inl over ↦ (
          (snprintf response written text, written),
          rw (f, print_entries, over) refl,
          s.sized,
          h,
        )
        | inr fits ↦
            let (r, q, e', h') =
              print_entries_lem entries count ((idx + 1) % register_max_entries)
                (snprintf response written text) (written + length text) l (omega arith) s.sized
                (ground (arith, e)) in
            (r, rw (f, print_entries, fits) q, e', h')
      ]

pub auth_list_users-EndsIn :
    (table : Table) (response : List ℕ)
    → 0 < length response
    → EndsIn (length response) (auth_list_users table response)
unfolding auth_list_users
auth_list_users-EndsIn table response h =
    print_chains-EndsIn (length response) table response 0 refl h

pub access_register_print-EndsIn :
    (reg : AccessRegister) (response : List ℕ)
    → History.IsValid reg
    → 0 < length response
    → (r : List ℕ) × (access_register_print (some reg) response ≡ some r)
      × EndsIn (length response) r
unfolding access_register_print
access_register_print-EndsIn reg response v h =
    let n = length response in
    let s = snprintf-EndsIn response 0 heading h in
    elim (Bool-cases (overflows response 0 (length heading))) [
      | inl over ↦ (snprintf response 0 heading, rw over refl, s)
      | inr fits ↦
          let ((r, w), q, e, l) =
            print_entries_lem n reg.entries reg.count reg.head (snprintf response 0 heading)
              (length heading) v.sized v.head_in s.sized (ground arith) in
          (print_end r w, rw (fits, q) refl, print_end-EndsIn n r w e l)
    ]
