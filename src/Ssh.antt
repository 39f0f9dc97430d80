-- ===== src/Ssh.antt =====
-- src/ssh.rs: an SSH session under a derived key. The key goes to an agent of its own (Unix) or
-- into a restricted temporary file (Windows). What is printed is left out.
pub mod Args
pub mod Agent
pub mod KeyFile
use cry.Base.{ℕ, List, ◌++◌, Text, codes}
use cry.Error.{Result, ◌>>=◌}
use cry.Crypto.{Crypto, KeyCrates}
use cry.CryDna.{Identity, verifying_key, derive}
use cry.CryDna.Export.{or_message}
use cry.Process.{System, Session, carry_on}
use cry.Ssh.Args.{SshArgs}
use cry.Ssh.Agent.{run_ssh_unix}
use cry.Ssh.KeyFile.{run_ssh_windows}

-- The two targets of the conditional compilation.
pub data Platform : Type 0 where
  unix windows : Platform

module _ (c : Crypto) (k : KeyCrates) where
  unfoldable pub encode_openssh_private_key : Identity → Text → Result Text
  encode_openssh_private_key id comment = do
    keypair ←
        or_message (codes "OpenSSH key build failed: ")
          (k.keypair (id.signing_key ++ verifying_key c id))
    private ← or_message (codes "OpenSSH key build failed: ") (k.private_key keypair comment)
    or_message (codes "OpenSSH key encode failed: ") (k.to_openssh private)

  -- The key that a session uses.
  unfoldable pub session_key : SshArgs → List ℕ → Result Text
  unfolding encode_openssh_private_key derive
  session_key args passphrase = do
    id ← derive c passphrase args.namespace args.key_version args.sub_id
    encode_openssh_private_key id (codes "CryDNA:" ++ args.namespace)

  abbrev pub on_platform : System → Platform → SshArgs → Text → Session (Unit {0})
  on_platform sys unix args key_pem = run_ssh_unix sys args key_pem
  on_platform sys windows args key_pem = run_ssh_windows sys args key_pem

  unfoldable pub run_ssh : System → Platform → SshArgs → List ℕ → Session (Unit {0})
  unfolding session_key run_ssh_unix run_ssh_windows
  run_ssh sys platform args passphrase =
      carry_on (on_platform sys platform args) (session_key args passphrase)
