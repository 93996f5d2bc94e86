-- ===== src/Admin/Config/Accounts.antt =====
-- The command ADD_USER, from the line to the table of users.
use tpe_protos.Common.{
  ℕ, zero, suc, ◌<◌, ◌≡◌, ◌≢◌, refl, sym, ap, ap₂, ◌∙◌, Bool, true, false, List, [], ◌∷◌, ◌++◌,
  if◌then◌else◌, take, replicate, length, c_string, codes, str_eq_refl, All, arith, Bool-cases, inl,
  inr, append-nil, append_assoc,
}
use tpe_protos.Stm.{returns}
use tpe_protos.Users.{auth_add_user, auth_check_credentials}
use tpe_protos.Users.View
use tpe_protos.Users.View.{Fits, Adds}
use tpe_protos.Admin.Command.{ParsedCommand, commands, args_len, cmd_add_user, strncpy}
use tpe_protos.Admin.Command.Words.{join, IsWord}
use tpe_protos.Admin.Command.Print.{parse-join_two}
use tpe_protos.Admin.Print.{snprintf}
use tpe_protos.Admin.Config.{
  text1, text2, ok, add_new, add_user, answer_add_user, handle_add_user, command_handlers,
  run_command, config_handler,
}
use tpe_protos.Admin.Config.Replies.{Settings, settings, with_settings, bind_lem}
use tpe_protos.Socks5.World.{World, pure, ◌>>=◌}
use tpe_protos.Socks5.Calls.{malloc}
use tpe_protos.Socks5.Interest.{Sel}

-- A word that a C string can hold, of at most 255 characters.
abbrev pub IsName : List ℕ → Type 0
IsName u = IsWord u × All (λ c. c ≢ 0) u × Fits u

c_string-plain : (u zs : List ℕ) → All (λ c. c ≢ 0) u → c_string (u ++ 0 ∷ zs) ≡ u
unfolding c_string
c_string-plain [] zs h = refl
c_string-plain (c ∷ u) zs h = ground (arith, c_string-plain u zs h.1, h.0)

take_ended :
    (n : ℕ) (u ys : List ℕ) → length u < n → (zs : List ℕ) × (take n (u ++ 0 ∷ ys) ≡ u ++ 0 ∷ zs)
take_ended zero u ys h = absurd (omega arith)
take_ended (suc n) [] ys h = (take n ys, refl)
take_ended (suc n) (x ∷ u) ys h =
    let (zs, e) = take_ended n u ys (omega arith) in (zs, ap (λ t. x ∷ t) e)

-- A name comes back from the array that `strncpy` fills, whatever follows the array.
c_string-strncpy :
    (u after : List ℕ) → All (λ c. c ≢ 0) u → Fits u → c_string (strncpy u ++ after) ≡ u
c_string-strncpy u after plain f =
    let (zs, e) = take_ended args_len u (replicate 255 0) f in
    ap (λ t. c_string (t ++ after)) e
    ∙ ap c_string (append_assoc u (0 ∷ zs) after)
    ∙ c_string-plain u (zs ++ after) plain

-- The answer, and what a login with the new credentials meets.
abbrev pub add_answer : List ℕ → Bool → List ℕ → List ℕ
add_answer u added response =
    if added
    then snprintf response 0 ok
    else snprintf response 0 (codes "ERROR: " ++ u ++ codes " already exists\n")

malloc-cons :
    (a : Bool) (rest : List Bool) (sel : Sel) (w : World)
    → w.system.allocations ≡ a ∷ rest
    → malloc (sel, w)
      ≡ returns (a, (sel, with_settings (record (settings w) { allocations = rest }) w))
unfolding malloc
malloc-cons a rest sel w e = rw (malloc, e) refl

module _ (u p : List ℕ) (a : Bool) (rest : List Bool) (sel : Sel) (w : World)
    (v : View.IsValid w.users) (fu : Fits u) (fp : Fits p)
    (given : w.system.allocations ≡ a ∷ rest) where
  add_new-Adds :
      (new : Bool)
      → (auth_add_user true u p w.users).1 ≡ new
      → (s : Settings) × (b : Bool) × (add_new new u p (sel, w)
          ≡ returns (b, (sel, with_settings s w)))
        × Adds u p a w.users (s.users, b)
  unfolding add_new
  add_new-Adds false e =
      let (valid, same, seen) = View.auth_add_user_lem true u p v fu fp in
      (settings w, false, refl, (v, ground (arith, e, same), λ j. refl))
  add_new-Adds true e =
      let r = auth_add_user a u p w.users in
      (
        record (settings w) { users = r.0; allocations = rest },
        r.1,
        rw (add_new, malloc-cons a rest sel w given, ◌>>=◌) refl,
        View.auth_add_user_lem a u p v fu fp,
      )

  answer_add_user-Adds :
      (response : List ℕ)
      → (s : Settings) × (b : Bool) × (answer_add_user u p response (sel, w)
          ≡ returns (add_answer u b response, (sel, with_settings s w)))
        × Adds u p a w.users (s.users, b)
  unfolding answer_add_user add_user
  answer_add_user-Adds response =
      let (s, b, run, adds) = add_new-Adds (auth_add_user true u p w.users).1 refl in
      (s, b, rw (run, ◌>>=◌) (elim (Bool-cases b) [ inl t ↦ rw t refl | inr f ↦ rw f refl ]), adds)

-- The table of handlers at the command.
run_command-add_user :
    (q : ParsedCommand) (response : List ℕ) (sel : Sel) (w : World)
    → q.cmd ≡ cmd_add_user
    → run_command q response (sel, w) ≡ answer_add_user (text1 q) (text2 q) response (sel, w)
unfolding run_command command_handlers handle_add_user
run_command-add_user q response sel w e = rw (run_command, e) refl

-- The line "ADD_USER u p", for a name and a password of at most 255 characters, to a server with a
-- valid table and a next allocation that succeeds or fails: the table stays valid, the user is added
-- exactly where memory is given and the name is new, the answer says which, and no other name is
-- touched. Where the answer is OK, a login with this name and this password is accepted.
pub config_handler-adds :
    (u p response : List ℕ) (a : Bool) (rest : List Bool) (sel : Sel) (w : World)
    → View.IsValid w.users
    → IsName u
    → IsName p
    → w.system.allocations ≡ a ∷ rest
    → (s : Settings) × (b : Bool) × (config_handler
          (join (codes "ADD_USER") (u ∷ p ∷ []))
          response
          (sel, w)
        ≡ returns (
          (length (c_string (add_answer u b response)), add_answer u b response),
          (sel, with_settings s w),
        ))
      × Adds u p a w.users (s.users, b)
      × (b ≡ true → auth_check_credentials u p s.users ≡ true)
unfolding config_handler commands
config_handler-adds u p response a rest sel w v (wu, pu, fu) (wp, pp, fp) given =
    let (q, parsed, cmd, arg1, arg2) =
      parse-join_two w.parsed_cmd cmd_add_user
        (record { name = codes "ADD_USER"; expected_args = 2 }) u p refl refl (wu, wp)
        (omega arith, omega arith) in
    let w' = record w { parsed_cmd = q } in
    let t1 : text1 q ≡ u =
      ap (λ t. c_string (t ++ q.arg2)) arg1 ∙ c_string-strncpy u q.arg2 pu fu in
    let t2 : text2 q ≡ p =
      ap c_string (arg2 ∙ sym (append-nil (strncpy p))) ∙ c_string-strncpy p [] pp fp in
    let (s, b, run, adds) = answer_add_user-Adds u p a rest sel w' v fu fp given response in
    (
      s,
      b,
      rw (parsed, config_handler)
          (bind_lem (run_command q response) (λ r. pure (length (c_string r), r)) (sel, w')
            (add_answer u b response) (sel, with_settings s w')
            (run_command-add_user q response sel w' cmd
              ∙ ap₂ (λ x y. answer_add_user x y response (sel, w')) t1 t2
              ∙ run)),
      adds,
      λ e. (View.auth_check_credentials_lem u p adds.0).1 (adds.2 u ∙ rw (e, str_eq_refl u) refl),
    )
