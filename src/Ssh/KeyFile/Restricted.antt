-- ===== src/Ssh/KeyFile/Restricted.antt =====
-- src/ssh.rs, Windows: nothing is written to a file before icacls has restricted it.
use cry.Base.{
  ℕ, ◌≡◌, ◌≢◌, refl, ◌∙◌, List, [], ◌∷◌, ◌++◌, Option, none, some, Bool, true, false, ◌&&◌, ◌||◌,
  inr, if◌then◌else◌, list_eq, list_eq_refl, Text, codes, arith,
}
use cry.Error.{Result, ok, err, panicked, stuck}
use cry.Utf8.{is_utf8}
use cry.Str.{trim}
use cry.Process.{
  Command, new, arg, Output, create_new, write_all, Event, ran, waited, called, Log, System,
  Session, scope, carry_on,
}
use cry.Ssh.Args.{SshArgs, each_arg, port_args, append_common_ssh_args}
use cry.Ssh.Agent.{run_ssh_program}
use cry.Ssh.KeyFile.{
  user_of, or_users, succeeded, icacls_command, windows_command, whoami_windows, write_key_pem,
  give_up, create_at, key_path, create_key_file, write_zeros, overwrite, drop_key_file,
  run_ssh_windows,
}

-- The arguments of icacls that take a file's inherited rights away, and grant full control to one
-- account in place of all other grants.
unfoldable pub grants : Text → List Text → Bool
grants owner (p ∷ inheritance ∷ grant ∷ account ∷ []) =
    list_eq inheritance (codes "/inheritance:r")
    && (list_eq grant (codes "/grant:r") && list_eq account (owner ++ codes ":F"))
grants owner args = false

-- The file that icacls is run on.
unfoldable pub is_for : Text → List Text → Bool
is_for path (p ∷ args) = list_eq p path
is_for path [] = false

-- An icacls on the file that succeeds, and leaves rights to the owner alone.
abbrev pub restricting : Text → Text → Event → Bool
restricting owner path (ran cmd o) =
    list_eq cmd.program (codes "icacls")
    && (is_for path cmd.args && (grants owner cmd.args && succeeded o))
restricting owner path (waited cmd o) = false
restricting owner path (called c r) = false

-- Whether a file has been restricted to the owner.
unfoldable pub restricted : Text → Text → Log → Bool
restricted owner path [] = false
restricted owner path (e ∷ log) = restricting owner path e || restricted owner path log

-- A write to a file comes after a restriction of that file, and an icacls grants rights to nobody
-- but the owner.
abbrev pub guarded_event : Text → Event → Log → Bool
guarded_event owner (called (write_all path bs) r) log = restricted owner path log
guarded_event owner (ran cmd o) log =
    if list_eq cmd.program (codes "icacls") then grants owner cmd.args else true
guarded_event owner e log = true

unfoldable pub guarded : Text → Log → Bool
guarded owner [] = true
guarded owner (e ∷ log) = guarded_event owner e log && guarded owner log

abbrev IsReady : Text → Text → Log → Type 0
IsReady owner path log = (guarded owner log ≡ true) × (restricted owner path log ≡ true)

icacls_command-grants :
    (owner path user : Text) → user ≡ owner → grants owner (icacls_command path user).args ≡ true
unfolding grants icacls_command list_eq codes
icacls_command-grants owner path user e = rw (e, list_eq_refl (owner ++ codes ":F")) refl

icacls_command-is_for :
    (path user : Text) → is_utf8 path ≡ true → is_for path (icacls_command path user).args ≡ true
unfolding is_for icacls_command
icacls_command-is_for path user h = rw h (rw (list_eq_refl path) refl)

each_arg-program : (l : List Text) (cmd : Command) → (each_arg l cmd).program ≡ cmd.program
each_arg-program [] cmd = refl
each_arg-program (a ∷ l) cmd = each_arg-program l (arg a cmd)

port_args-program : (port : Option ℕ) (cmd : Command) → (port_args port cmd).program ≡ cmd.program
port_args-program none cmd = refl
port_args-program (some p) cmd = refl

windows_command-program :
    (path : Text) (args : SshArgs) → (windows_command path args).program ≡ codes "ssh"
unfolding windows_command append_common_ssh_args
windows_command-program path args = each_arg-program args.ssh_args _ ∙ port_args-program args.port _

-- `whoami`, whenever it is run, prints the account, which is UTF-8 and not empty, perhaps with white
-- space around it.
abbrev pub Names : System → Text → Type 0
Names sys owner =
    (owner ≢ [])
    × ((log : Log)
        → (out : Output) × (sys.run log (new (codes "whoami")) ≡ inr out)
          × (is_utf8 out.stdout ≡ true)
          × (trim out.stdout ≡ owner))

or_users_lem : (owner : Text) → owner ≢ [] → or_users owner ≡ owner
or_users_lem [] ne = absurd (ne refl)
or_users_lem (c ∷ s) ne = refl

user_of-Names :
    (sys : System) (owner : Text) (log : Log)
    → Names sys owner
    → user_of (sys.run log (new (codes "whoami"))) ≡ owner
unfolding user_of
user_of-Names sys owner log (ne, prints) =
    let (out, e, u, t) = prints log in rw (e, u, t) (or_users_lem owner ne)

module _ (sys : System) (owner : Text) where
  write_key_pem-IsReady :
      (path key_pem : Text) (log : Log)
      → IsReady owner path log
      → IsReady owner path (write_key_pem sys path key_pem log).1
  unfolding write_key_pem guarded restricted
  write_key_pem-IsReady path key_pem log h = ground arith

  drop_key_file-guarded :
      (path : Text) (log : Log)
      → IsReady owner path log
      → guarded owner (drop_key_file sys path log).1 ≡ true
  unfolding drop_key_file overwrite write_zeros guarded restricted
  drop_key_file-guarded path log h = ground arith

  -- A path that a creation gives is restricted.
  abbrev restricted_result : Result Text → Log → Bool
  restricted_result (ok p) log = restricted owner p log
  restricted_result (err e) log = true
  restricted_result panicked log = true
  restricted_result stuck log = true

  write_key_pem-restricted :
      (path key_pem : Text) (log : Log)
      → restricted owner path log ≡ true
      → let (r, log') = write_key_pem sys path key_pem log in restricted_result r log' ≡ true
  unfolding write_key_pem restricted
  write_key_pem-restricted path key_pem log h = ground arith

  create_at-guarded :
      (path key_pem : Text) (log : Log)
      → Names sys owner
      → is_utf8 path ≡ true
      → guarded owner log ≡ true
      → let (r, log') = create_at sys path key_pem log in
        (guarded owner log' ≡ true) × (restricted_result r log' ≡ true)
  unfolding create_at whoami_windows give_up guarded restricted icacls_command list_eq codes
  create_at-guarded path key_pem log names u h =
      let made = called (create_new path) (sys.call log (create_new path)) ∷ log in
      let who = new (codes "whoami") in
      let asked = ran who (sys.run made who) ∷ made in
      let user = user_of (sys.run made who) in
      let icacls = icacls_command path user in
      let after = ran icacls (sys.run asked icacls) ∷ asked in
      ground (
        arith,
        icacls_command-grants owner path user (user_of-Names sys owner made names),
        icacls_command-is_for path user u,
        write_key_pem-IsReady path key_pem after,
        write_key_pem-restricted path key_pem after,
      )

  run_ssh_program-IsReady :
      (path : Text) (cmd : Command) (log : Log)
      → cmd.program ≡ codes "ssh"
      → IsReady owner path log
      → IsReady owner path (run_ssh_program sys cmd log).1
  unfolding run_ssh_program guarded restricted list_eq codes
  run_ssh_program-IsReady path cmd log e h =
      let not_icacls : list_eq cmd.program (codes "icacls") ≡ false = rw e refl in ground arith

  -- Whatever the other programs do and whatever calls fail: when `whoami` prints an account, a
  -- session on Windows writes nothing to a file before an icacls has succeeded on it that takes
  -- its inherited rights away and replaces all grants by full control for that account; and no
  -- icacls grants anything to another. The account is not empty, and it and the temporary path are
  -- UTF-8.
  pub run_ssh_windows-guarded :
      Names sys owner
      → ((name : Text) → is_utf8 (sys.temp_path name) ≡ true)
      → (args : SshArgs) (key_pem : Text) (log : Log) → guarded owner log ≡ true
      → guarded owner (run_ssh_windows sys args key_pem log).1 ≡ true
  unfolding run_ssh_windows create_key_file
  run_ssh_windows-guarded names utf8 args key_pem log h =
      let path = key_path sys (sys.random log 8) in
      let (r, log') = create_at sys path key_pem log in
      let (g, s) = create_at-guarded path key_pem log names (utf8 _) h in go r log' g s
    where
      session : Text → Session (Unit {0})
      session p = scope (drop_key_file sys p) (run_ssh_program sys (windows_command p args))

      go :
          (r : Result Text) (log' : Log)
          → guarded owner log' ≡ true
          → restricted_result r log' ≡ true
          → guarded owner (carry_on session r log').1 ≡ true
      go (ok p) log' g s = drop_key_file-guarded p _ (
          run_ssh_program-IsReady p (windows_command p args) log' (windows_command-program p args)
            (g, s))
      go (err x) log' g s = g
      go panicked log' g s = g
      go stuck log' g s = g
