-- ===== src/Admin/Print.antt =====
-- The texts that the server prints for the administrator: `metrics_print` of metrics.c,
-- `access_register_print` of access_register.c (src/server/s5admin), `auth_list_users` of
-- src/server/utils/auth_table.c and `get_log_level_string` of src/shared/logger.c. A response is the
-- array of `response_size` characters.
pub mod Fits
use tpe_protos.Common.{
  ℕ, zero, suc, ◌+◌, ◌-◌, ◌%◌, Bool, true, false, List, [], ◌∷◌, ◌++◌, Option, none, some, ltb, leb,
  if◌then◌else◌, take, replicate, length, get_elem?, codes, decimal,
}
use tpe_protos.Buffer.{copy_to}
use tpe_protos.Users.{Chain, Table}
use tpe_protos.Admin.Metrics.{ServerMetrics}
use tpe_protos.Admin.AccessRegister.{AccessEntry, AccessRegister, register_max_entries}

-- `snprintf` at the index `written`: what fits, and a zero.
unfoldable pub snprintf : List ℕ → ℕ → List ℕ → List ℕ
snprintf response written text = elim (length response - written) [
  | zero ↦ response
  | suc n ↦ copy_to response written (take n text ++ 0 ∷ [])
]

-- `%-25s` and the like.
abbrev pad : ℕ → List ℕ → List ℕ
pad width text = text ++ replicate (width - length text) 32

unfoldable pub metrics_print : ServerMetrics → List ℕ → List ℕ
metrics_print m response = snprintf response 0 (
    codes "CONNECTED: "
    ++ decimal m.current_connections
    ++ codes "\nHISTORICAL: "
    ++ decimal m.total_connections
    ++ codes "\nBYTES: "
    ++ decimal m.bytes_transferred
    ++ codes "\nERRORS: "
    ++ decimal m.errors
    ++ codes "\nEND\n")

-- One row of the register: eight columns.
row : List ℕ → List ℕ → List ℕ → List ℕ → List ℕ → List ℕ → List ℕ → List ℕ → List ℕ
row c1 c2 c3 c4 c5 c6 c7 c8 =
    pad 25 c1
    ++ 32 ∷ pad 15 c2
    ++ 32 ∷ pad 10 c3
    ++ 32 ∷ pad 15 c4
    ++ 32 ∷ pad 12 c5
    ++ 32 ∷ pad 20 c6
    ++ 32 ∷ pad 12 c7
    ++ 32 ∷ pad 10 c8
    ++ 10 ∷ []

heading : List ℕ
unfolding row
heading =
    row (codes "Fecha") (codes "Usuario") (codes "Tipo") (codes "IP_origen") (codes "Pto_org")
      (codes "Destino") (codes "Pto_dst") (codes "Status")

entry_row : AccessEntry → List ℕ
unfolding row
entry_row e =
    row e.iso_date e.username (e.register_type ∷ []) e.src_ip (decimal e.src_port) e.destination
      (decimal e.dest_port) (decimal e.status_code)

-- Does a text of `n` characters not fit at `written`, with its zero?
abbrev pub overflows : List ℕ → ℕ → ℕ → Bool
overflows response written n = leb (length response - written) n

-- The loop over the entries from `idx` on: the array, and how much is written. `none`: an entry outside
-- the register is read.
unfoldable pub print_entries : List AccessEntry → ℕ → ℕ → List ℕ → ℕ → Option (List ℕ × ℕ)
unfolding entry_row
print_entries entries zero idx response written = some (response, written)
print_entries entries (suc count) idx response written = elim (get_elem? entries idx) [
  | none ↦ none
  | some entry ↦
      let text = entry_row entry in
      let r = snprintf response written text in
      let rest =
        print_entries entries count ((idx + 1) % register_max_entries) r (written + length text) in
      if overflows response written (length text) then some (r, written) else rest
]

-- The line behind the entries, where a character is left.
abbrev pub print_end : List ℕ → ℕ → List ℕ
print_end response written =
    if ltb written (length response) then snprintf response written (codes "END\n") else response

unfoldable pub access_register_print : Option AccessRegister → List ℕ → Option (List ℕ)
unfolding heading
access_register_print none response = some response
access_register_print (some reg) response =
    let r = snprintf response 0 heading in
    if overflows response 0 (length heading)
    then some r
    else elim (print_entries reg.entries reg.count reg.head r (length heading)) [
      | none ↦ none
      | some (r', written) ↦ some (print_end r' written)
    ]

-- The loop over one chain: the array, how much is written, and whether the printing goes on.
unfoldable pub print_chain : Chain → List ℕ → ℕ → List ℕ × ℕ × Bool
print_chain [] response written = (response, written, true)
print_chain (e ∷ chain) response written =
    let text = e.username ++ 10 ∷ [] in
    let r = snprintf response written text in
    let rest = print_chain chain r (written + length text) in
    if overflows response written (length text) then (r, written, false) else rest

unfoldable pub print_chains : Table → List ℕ → ℕ → List ℕ
print_chains [] response written = print_end response written
print_chains (chain ∷ table) response written =
    let (r, w, more) = print_chain chain response written in
    let rest = print_chains table r w in if more then rest else r

unfoldable pub auth_list_users : Table → List ℕ → List ℕ
unfolding print_chain print_chains
auth_list_users table response = print_chains table response 0

-- The levels of the log: `log_level_t`.
abbrev pub debug : ℕ
debug = 0

abbrev pub info : ℕ
info = 1

abbrev pub warning : ℕ
warning = 2

abbrev pub error : ℕ
error = 3

abbrev pub log_levels : List (List ℕ)
log_levels = codes "DEBUG" ∷ codes "INFO" ∷ codes "WARNING" ∷ codes "ERROR" ∷ []

unfoldable pub get_log_level_string : ℕ → List ℕ
get_log_level_string level = elim (get_elem? log_levels level) [
  | none ↦ codes "UNKNOWN"
  | some s ↦ s
]
