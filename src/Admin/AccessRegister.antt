-- ===== src/Admin/AccessRegister.antt =====
-- src/server/s5admin/access_register.c and access_register.h: the log of the last hundred accesses, a
-- circular array. Its text is in Admin.Print.
pub mod History
use tpe_protos.Common.{
  ℕ, ◌+◌, ◌-◌, ◌%◌, List, Option, none, some, Bool, ltb, if◌then◌else◌, set, take,
}

abbrev pub register_max_entries : ℕ
register_max_entries = 100

abbrev pub max_username_len : ℕ
max_username_len = 256

abbrev pub ip_max_len : ℕ
ip_max_len = 64

abbrev pub dest_max_len : ℕ
dest_max_len = 256

-- `DEFAULT_REG_TYPE`
abbrev pub default_reg_type : ℕ
default_reg_type = b'A'

-- `access_entry_t`; a text is the characters in front of its zero.
pub record AccessEntry : Type 0 where
  pub iso_date : List ℕ
  pub username : List ℕ
  pub register_type : ℕ
  pub src_ip : List ℕ
  pub src_port : ℕ
  pub destination : List ℕ
  pub dest_port : ℕ
  pub status_code : ℕ

-- `access_register_t`
pub record AccessRegister : Type 0 where
  pub entries : List AccessEntry
  pub head : ℕ
  pub tail : ℕ
  pub count : ℕ

-- The arguments of a call, its time stamp aside.
pub record Access : Type 0 where
  pub username : List ℕ
  pub src_ip : List ℕ
  pub src_port : ℕ
  pub destination : List ℕ
  pub dest_port : ℕ
  pub status_code : ℕ

-- `entries` is what `malloc` leaves in the array; `none` is the null pointer.
unfoldable pub access_register_init : Bool → List AccessEntry → Option AccessRegister
access_register_init allocated entries =
    if allocated then some (record { entries = entries; head = 0; tail = 0; count = 0 }) else none

-- The entry that is written; `iso_date` is the text that `gmtime_r` and `strftime` make of the time
-- stamp.
unfoldable pub entry_of : Access → List ℕ → AccessEntry
entry_of a iso_date = record {
  iso_date = iso_date;
  username = take (max_username_len - 1) a.username;
  register_type = default_reg_type;
  src_ip = take (ip_max_len - 1) a.src_ip;
  src_port = a.src_port;
  destination = take (dest_max_len - 1) a.destination;
  dest_port = a.dest_port;
  status_code = a.status_code;
}

-- The rest of the call: the slot at `tail` is written, the indices move on, and where the register
-- is full the oldest entry is given up.
unfoldable pub add_to : AccessEntry → AccessRegister → AccessRegister
add_to entry reg =
    let r = record reg {
      entries = set reg.entries reg.tail entry;
      tail = (reg.tail + 1) % register_max_entries;
    } in
    if ltb r.count register_max_entries
    then record r { count = r.count + 1 }
    else record r { head = (r.head + 1) % register_max_entries }

unfoldable pub access_register_add_entry :
    Option AccessRegister → Access → List ℕ → Option AccessRegister
unfolding entry_of add_to
access_register_add_entry none a iso_date = none
access_register_add_entry (some reg) a iso_date = some (add_to (entry_of a iso_date) reg)
