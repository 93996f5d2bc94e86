-- ===== src/Admin/Config/Replies.antt =====
-- Every command is answered with a text that ends inside the array for the response, and touches only
-- what the administrator may set.
use mathlib.Core.Option.{none-ne-some}
use tpe_protos.Common.{
  ℕ, zero, suc, ◌<◌, ◌≡◌, ◌≢◌, refl, sym, ap, ◌∙◌, Bool, true, false, List, [], ◌∷◌, ◌++◌, none,
  some, ℤ, pos, negsuc, ◌==◌, if◌then◌else◌, length, get_elem?, c_string, codes, All, arith,
  Bool-cases, Option-cases, inl, inr, atoi, ltb, decimal,
}
use tpe_protos.Stm.{Run, returns}
use tpe_protos.Users.{Table, auth_add_user, auth_remove_user}
use tpe_protos.Admin.AccessRegister.{AccessRegister}
use tpe_protos.Admin.AccessRegister.History
use tpe_protos.Admin.Metrics.{ServerMetrics}
use tpe_protos.Admin.ServerData.{ServerData, set_max_conn, set_buffer_size, buff_min_len}
use tpe_protos.Admin.Command.{
  ParsedCommand, cmd_invalid, s5admin_parse_command, strtok, find_command, commands,
}
use tpe_protos.Admin.Command.Range.{IsCommand, s5admin_parse_command-IsCommand}
use tpe_protos.Admin.Command.Words.{words, words-strtok, first_word}
use tpe_protos.Admin.Print.{snprintf}
use tpe_protos.Admin.Print.Fits.{
  EndsIn, snprintf-EndsIn, metrics_print-EndsIn, auth_list_users-EndsIn,
  access_register_print-EndsIn,
}
use tpe_protos.Admin.Config.{
  CmdHandler, text1, text2, add_new, add_user, handle_add_user, handle_remove_user,
  handle_list_users, handle_get_metrics, handle_get_access_register, handle_set_loglevel,
  handle_set_max_conn, handle_set_buff, handle_get_config, handle_help, handle_ping, handle_exit,
  command_handlers, run_command, config_handler, level_of, is_zero,
}
use tpe_protos.Socks5.World.{World, State, Act, pure, ◌>>=◌}
use tpe_protos.Socks5.Calls.{malloc}
use tpe_protos.Socks5.Interest.{Sel}

-- The counters and the register are there.
pub record Serves (w : World) : Type 0 where
  pub metrics : ServerMetrics
  pub counted : w.server_data.metrics ≡ some metrics
  pub register : AccessRegister
  pub registered : w.server_data.access_register ≡ some register
  pub in_order : History.IsValid register

-- What an administrator may change.
pub record Settings : Type 0 where
  pub users : Table
  pub buffer_size : ℕ
  pub max_conn : ℕ
  pub parsed_cmd : ParsedCommand
  pub log_level : ℕ
  pub allocations : List Bool

abbrev pub settings : World → Settings
settings w = record {
  users = w.users;
  buffer_size = w.server_data.buffer_size;
  max_conn = w.server_data.max_conn;
  parsed_cmd = w.parsed_cmd;
  log_level = w.log_level;
  allocations = w.system.allocations;
}

abbrev pub with_settings : Settings → World → World
with_settings s w = record w {
  users = s.users;
  server_data = record (w.server_data) { buffer_size = s.buffer_size; max_conn = s.max_conn };
  parsed_cmd = s.parsed_cmd;
  log_level = s.log_level;
  system = record (w.system) { allocations = s.allocations };
}

-- A call that returned a text which ends inside `n` characters, and changed nothing but settings.
abbrev pub Answers : ℕ → Sel → World → Run (List ℕ × State) → Type 0
Answers n sel w r =
    (text : List ℕ) × (s : Settings) × (r ≡ returns (text, (sel, with_settings s w)))
    × EndsIn n text

abbrev AnswersAlways : CmdHandler → Type 0
AnswersAlways handler =
    (p : ParsedCommand) (response : List ℕ) (sel : Sel) (w : World)
    → Serves w
    → 0 < length response
    → Answers (length response) sel w (handler p response (sel, w))

malloc_lem :
    (sel : Sel) (w : World) (l : List Bool)
    → w.system.allocations ≡ l
    → (b : Bool) × (bs : List Bool) × (malloc (sel, w)
        ≡ returns (b, (sel, with_settings (record (settings w) { allocations = bs }) w)))
unfolding malloc
malloc_lem sel w [] e = (false, w.system.allocations, rw (malloc, e) refl)
malloc_lem sel w (b ∷ bs) e = (b, bs, rw (malloc, e) refl)

-- The table behind an addition.
AddsTo : Sel → World → Run (Bool × State) → Type 0
AddsTo sel w r =
    (b : Bool) × (users : Table) × (bs : List Bool) × (r
      ≡ returns
          (b, (sel, with_settings (record (settings w) { users = users; allocations = bs }) w)))

add_new_lem :
    (new : Bool) (username password : List ℕ) (sel : Sel) (w : World)
    → AddsTo sel w (add_new new username password (sel, w))
unfolding AddsTo add_new
add_new_lem false username password sel w = (false, w.users, w.system.allocations, refl)
add_new_lem true username password sel w =
    let (b, bs, m) = malloc_lem sel w w.system.allocations refl in
    let r = auth_add_user b username password w.users in (r.1, r.0, bs, rw (add_new, m, ◌>>=◌) refl)

add_user_lem :
    (username password : List ℕ) (sel : Sel) (w : World)
    → AddsTo sel w (add_user username password (sel, w))
unfolding add_user
add_user_lem username password sel w =
    add_new_lem (auth_add_user true username password w.users).1 username password sel w

-- The message is chosen by a test.
module _ (response : List ℕ) (sel : Sel) (w : World) (s : Settings) (h : 0 < length response) where
  one_of-Answers :
      (b : Bool) (m : Run (List ℕ × State)) (yes_text no_text : List ℕ)
      → m ≡ (
          if b
          then returns (snprintf response 0 yes_text, (sel, with_settings s w))
          else returns (snprintf response 0 no_text, (sel, with_settings s w)))
      → Answers (length response) sel w m
  one_of-Answers true m y n e = (snprintf response 0 y, s, e, snprintf-EndsIn response 0 y h)
  one_of-Answers false m y n e = (snprintf response 0 n, s, e, snprintf-EndsIn response 0 n h)

handle_add_user-Answers : AnswersAlways handle_add_user
unfolding handle_add_user AddsTo
handle_add_user-Answers p response sel w v h =
    let (b, users, bs, run) = add_user_lem (text1 p) (text2 p) sel w in
    one_of-Answers response sel w (record (settings w) { users = users; allocations = bs }) h b _
      (codes "OK\n") (codes "ERROR: " ++ text1 p ++ codes " already exists\n")
      (rw (run, ◌>>=◌) (elim (Bool-cases b) [ inl t ↦ rw t refl | inr f ↦ rw f refl ]))

handle_remove_user-Answers : AnswersAlways handle_remove_user
unfolding handle_remove_user
handle_remove_user-Answers p response sel w v h =
    let r = auth_remove_user (text1 p) w.users in
    one_of-Answers response sel w (record (settings w) { users = r.0 }) h r.1 _ (codes "OK\n")
      (codes "ERROR: " ++ text1 p ++ codes " not found\n")
      (elim (Bool-cases r.1) [ inl t ↦ rw t refl | inr f ↦ rw f refl ])

handle_list_users-Answers : AnswersAlways handle_list_users
unfolding handle_list_users
handle_list_users-Answers p response sel w v h =
    (_, settings w, refl, auth_list_users-EndsIn w.users response h)

handle_get_metrics-Answers : AnswersAlways handle_get_metrics
unfolding handle_get_metrics
handle_get_metrics-Answers p response sel w v h =
    (_, settings w, rw v.counted refl, metrics_print-EndsIn v.metrics response h)

handle_get_access_register-Answers : AnswersAlways handle_get_access_register
unfolding handle_get_access_register
handle_get_access_register-Answers p response sel w v h =
    let (r, e, s) = access_register_print-EndsIn v.register response v.in_order h in
    (r, settings w, rw (v.registered, e) refl, s)

handle_set_loglevel-Answers : AnswersAlways handle_set_loglevel
unfolding handle_set_loglevel
handle_set_loglevel-Answers p response sel w v h = elim (Option-cases (level_of (text1 p))) [
  | inl n ↦
      let text = codes "ERROR: invalid log level\n" in
      (
        snprintf response 0 text,
        settings w,
        rw (n, handle_set_loglevel) refl,
        snprintf-EndsIn response 0 text h,
      )
  | inr (level, e) ↦
      let text = codes "OK\n" in
      (
        snprintf response 0 text,
        record (settings w) { log_level = level },
        rw (e, handle_set_loglevel) refl,
        snprintf-EndsIn response 0 text h,
      )
]

set_max_conn_data :
    (d : ServerData) (i : ℤ) → (n : ℕ) × ((set_max_conn d i).1 ≡ record d { max_conn = n })
unfolding set_max_conn
set_max_conn_data d (negsuc n) = (d.max_conn, refl)
set_max_conn_data d (pos n) = (if ltb n 1 then d.max_conn else n, ground arith)

set_buffer_size_data :
    (d : ServerData) (i : ℤ) → (n : ℕ) × ((set_buffer_size d i).1 ≡ record d { buffer_size = n })
unfolding set_buffer_size
set_buffer_size_data d (negsuc n) = (d.buffer_size, refl)
set_buffer_size_data d (pos n) = (if ltb n buff_min_len then d.buffer_size else n, ground arith)

handle_set_max_conn-Answers : AnswersAlways handle_set_max_conn
unfolding handle_set_max_conn
handle_set_max_conn-Answers p response sel w v h =
    let r = set_max_conn w.server_data (atoi (text1 p)) in
    let (n, e) = set_max_conn_data w.server_data (atoi (text1 p)) in
    one_of-Answers response sel w (record (settings w) { max_conn = n }) h (is_zero r.0) _
      (codes "OK\n") (codes "ERROR: max connections must be at least 1\n")
      (rw e (elim (Bool-cases (is_zero r.0)) [ inl t ↦ rw t refl | inr f ↦ rw f refl ]))

handle_set_buff-Answers : AnswersAlways handle_set_buff
unfolding handle_set_buff
handle_set_buff-Answers p response sel w v h =
    let r = set_buffer_size w.server_data (atoi (text1 p)) in
    let (n, e) = set_buffer_size_data w.server_data (atoi (text1 p)) in
    one_of-Answers response sel w (record (settings w) { buffer_size = n }) h (is_zero r.0) _
      (codes "OK\n")
      (codes "ERROR: buffer size must be at least " ++ decimal buff_min_len ++ codes " bytes\n")
      (rw e (elim (Bool-cases (is_zero r.0)) [ inl t ↦ rw t refl | inr f ↦ rw f refl ]))

-- The commands that only read.
module _ (p : ParsedCommand) (response : List ℕ) (sel : Sel) (w : World) (v : Serves w)
    (h : 0 < length response) where
  handle_get_config-Answers :
      Answers (length response) sel w (handle_get_config p response (sel, w))
  unfolding handle_get_config
  handle_get_config-Answers = (_, settings w, refl, snprintf-EndsIn response 0 _ h)

  handle_help-Answers : Answers (length response) sel w (handle_help p response (sel, w))
  unfolding handle_help
  handle_help-Answers = (_, settings w, refl, snprintf-EndsIn response 0 _ h)

  handle_ping-Answers : Answers (length response) sel w (handle_ping p response (sel, w))
  unfolding handle_ping
  handle_ping-Answers = (_, settings w, refl, snprintf-EndsIn response 0 _ h)

  handle_exit-Answers : Answers (length response) sel w (handle_exit p response (sel, w))
  unfolding handle_exit
  handle_exit-Answers = (_, settings w, refl, snprintf-EndsIn response 0 _ h)

AllAnswer : All AnswersAlways command_handlers
unfolding command_handlers
AllAnswer = (
  handle_add_user-Answers,
  (
    handle_remove_user-Answers,
    (
      handle_list_users-Answers,
      (
        handle_get_metrics-Answers,
        (
          handle_get_access_register-Answers,
          (
            handle_set_loglevel-Answers,
            (
              handle_set_max_conn-Answers,
              (
                handle_set_buff-Answers,
                (
                  handle_get_config-Answers,
                  (handle_help-Answers, (handle_ping-Answers, (handle_exit-Answers, tt))),
                ),
              ),
            ),
          ),
        ),
      ),
    ),
  ),
)

found_in :
    (handlers : List CmdHandler) (i : ℕ)
    → All AnswersAlways handlers
    → i < length handlers
    → (handler : CmdHandler) × (get_elem? handlers i ≡ some handler) × AnswersAlways handler
found_in [] i a h = absurd (omega arith)
found_in (x ∷ xs) zero a h = (x, refl, a.0)
found_in (x ∷ xs) (suc i) a h = found_in xs i a.1 (omega arith)

length-command_handlers : length command_handlers ≡ cmd_invalid
unfolding command_handlers
length-command_handlers = refl

pub bind_lem :
    {A B : Type 0} (m : Act A) (f : A → Act B) (s : State) (a : A) (s' : State)
    → m s ≡ returns (a, s')
    → (m >>= f) s ≡ f a s'
bind_lem m f s a s' e = rw (e, ◌>>=◌) refl

-- Only a line without a word makes the parser fail.
pub parsed_lem :
    (parsed : ParsedCommand) (line : List ℕ)
    → s5admin_parse_command parsed line ≡ none
    → words line ≡ []
unfolding s5admin_parse_command
parsed_lem parsed line e = elim (Option-cases (strtok line)) [
  | inl n ↦ words-strtok line ∙ ap first_word n
  | inr ((t, rest), s) ↦ elim (Option-cases (find_command commands 0 t)) [
    | inl n ↦ absurd (none-ne-some _ (sym (rw (s, n, s5admin_parse_command) at (e))))
    | inr ((i, k), f) ↦ absurd (none-ne-some _ (sym (rw (s, f, s5admin_parse_command) at (e))))
  ]
]

pub run_command-Answers :
    (p : ParsedCommand) (response : List ℕ) (sel : Sel) (w : World)
    → Serves w
    → IsCommand p.cmd
    → 0 < length response
    → Answers (length response) sel w (run_command p response (sel, w))
unfolding run_command
run_command-Answers p response sel w v c h = elim (Bool-cases (p.cmd == cmd_invalid)) [
  | inl t ↦
      let text = codes "ERROR: " ++ text1 p ++ codes "\n" in
      (
        snprintf response 0 text,
        settings w,
        rw (t, run_command) refl,
        snprintf-EndsIn response 0 text h,
      )
  | inr f ↦
      let (handler, e, a) =
        found_in command_handlers p.cmd AllAnswer (ground (arith, length-command_handlers)) in
      let (text, s, run, ends) = a p response sel w v h in
      (text, s, rw (f, run_command, e) run, ends)
]

pub config_handler-Answers :
    (cmd response : List ℕ) (sel : Sel) (w : World)
    → words cmd ≢ []
    → Serves w
    → 0 < length response
    → (text : List ℕ) × (s : Settings) × (config_handler cmd response (sel, w)
        ≡ returns ((length (c_string text), text), (sel, with_settings s w)))
      × (length text ≡ length response)
      × (length (c_string text) < length response)
unfolding config_handler
config_handler-Answers cmd response sel w some_word v h =
    elim (Option-cases (s5admin_parse_command w.parsed_cmd cmd)) [
      | inl n ↦ absurd (some_word (parsed_lem w.parsed_cmd cmd n))
      | inr (p, e) ↦
          let w' = record w { parsed_cmd = p } in
          let (text, s, run, ends) =
            run_command-Answers p response sel w'
              (record {
                metrics = v.metrics;
                counted = v.counted;
                register = v.register;
                registered = v.registered;
                in_order = v.in_order;
              })
              (s5admin_parse_command-IsCommand w.parsed_cmd p cmd e) h in
          (
            text,
            s,
            rw (e, config_handler)
                (bind_lem (run_command p response) (λ r. pure (length (c_string r), r)) (sel, w')
                  text (sel, with_settings s w') run),
            ends.sized,
            ends.ends,
          )
    ]
