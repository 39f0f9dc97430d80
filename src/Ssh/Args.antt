-- ===== src/Ssh/Args.antt =====
-- src/ssh.rs: the arguments of `cry ssh`, and those that both platforms hand to `ssh`.
use cry.Base.{ℕ, List, [], ◌∷◌, Option, none, some, Text, codes}
use cry.Fmt.{decimal}
use cry.Process.{Command, arg}

pub record SshArgs : Type 0 where
  pub target : Text
  pub passphrase : Option Text
  pub namespace : Text
  pub key_version : ℕ
  pub sub_id : Option Text
  pub pass_file : Option Text
  pub port : Option ℕ
  pub ssh_args : List Text

abbrev pub port_args : Option ℕ → Command → Command
port_args none ssh = ssh
port_args (some port) ssh = arg (decimal port) (arg (codes "-p") ssh)

abbrev pub each_arg : List Text → Command → Command
each_arg [] ssh = ssh
each_arg (extra ∷ more) ssh = each_arg more (arg extra ssh)

unfoldable pub append_common_ssh_args : SshArgs → Command → Command
append_common_ssh_args args ssh = arg args.target (each_arg args.ssh_args (port_args args.port ssh))

-- `-o option`.
abbrev pub opt : Text → Command → Command
opt o ssh = arg o (arg (codes "-o") ssh)
