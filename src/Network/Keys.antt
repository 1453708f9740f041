-- ===== src/Network/Keys.antt =====
-- internal/network/ssh_client.go: loadPrivateKey and loadPrivateKeyIfExists. The files and the home
-- directory are parameters.
use Prim.Native.Char.{code}
use Prim.Native.String.{[], ◌∷◌}
use waymon.Common.{String, Option, none, some, ◌==◌, if◌then◌else◌}

-- What is found at a path: nothing, a file that cannot be read, one that holds an encrypted key or
-- no key, or a key.
pub data KeyFile : Type 0 where
  missing unreadable encrypted unparsed valid : KeyFile

pub data KeyError : Type 0 where
  no_home unreadable_key encrypted_key unparsed_key : KeyError

pub record Files : Type 0 where
  pub home_dir : Option String  -- `os.UserHomeDir`
  pub join : String → String → String  -- `filepath.Join`
  pub key_file : String → KeyFile

-- `keyPath[1:]` where the path starts with "~".
unfoldable pub after_tilde : String → Option String
after_tilde [] = none
after_tilde (c ∷ rest) = if code c == 126 then some rest else none

-- The path that is read; none where the home directory is not known.
abbrev pub expand : Files → String → Option String → Option String
expand files path none = some path
expand files path (some rest) = elim files.home_dir [
  | none ↦ none
  | some home ↦ some (files.join home rest)
]

-- A signer is the path of its key.
abbrev pub parse_key : String → KeyFile → String × Option KeyError
parse_key path missing = ("", some unreadable_key)
parse_key path unreadable = ("", some unreadable_key)
parse_key path encrypted = ("", some encrypted_key)
parse_key path unparsed = ("", some unparsed_key)
parse_key path valid = (path, none)

unfoldable pub load_private_key : Files → String → String × Option KeyError
unfolding after_tilde
load_private_key files path = elim (expand files path (after_tilde path)) [
  | none ↦ ("", some no_home)
  | some expanded ↦ parse_key expanded (files.key_file expanded)
]

abbrev pub signer_of : String × Option KeyError → Option String
signer_of (signer, none) = some signer
signer_of (signer, some e) = none

-- `loadPrivateKeyIfExists`, and whether there is a signer: a missing file is none, and no error.
unfoldable pub load_private_key_if_exists : Files → String → Option String
unfolding load_private_key
load_private_key_if_exists files path =
    let signer = signer_of (load_private_key files path) in
    elim (files.key_file path) [
      | missing ↦ none
      | unreadable ↦ signer
      | encrypted ↦ signer
      | unparsed ↦ signer
      | valid ↦ signer
    ]
