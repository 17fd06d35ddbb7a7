-- ===== src/Entities/Did.antt =====
-- entities/address.go: decentralised identifiers, `prefix:address#chain`.
use go_m_layer.Prelude.{
  not, List, [], ◌∷◌, ◌++◌, Str, str, is_empty, split, trim_spaces, if◌then◌else◌,
}

pub record Did : Type 0 where
  pub prefix : Str
  pub addr : Str
  pub chain : Str

-- DID.ToString
unfoldable pub did_to_string : Did → Str
unfolding is_empty
did_to_string d =
    d.prefix ++ (58 ∷ []) ++ d.addr ++ (if not (is_empty d.chain) then 35 ∷ d.chain else [])

-- ToDIDString and ToDeviceString: an empty prefix becomes `did`.
unfoldable pub to_did_string : Did → Str
unfolding did_to_string is_empty
to_did_string d = did_to_string (if is_empty d.prefix then record d { prefix = str "did" } else d)

split_chain : Did → List Str → Did
split_chain d (a ∷ c ∷ more) = record d { addr = a; chain = c }
split_chain d _ = d

split_prefix : Str → List Str → Did
split_prefix prefix (a ∷ []) = record { prefix = prefix; addr = a; chain = [] }
split_prefix prefix (p ∷ a ∷ []) = record { prefix = p; addr = a; chain = [] }
split_prefix prefix _ = record { prefix = prefix; addr = []; chain = [] }

unfoldable pub build_address : Str → Str → Did
unfolding split_chain split_prefix split trim_spaces
build_address s prefix =
    let d = split_prefix prefix (split 58 (trim_spaces s)) in split_chain d (split 35 d.addr)

unfoldable pub address_from_string : Str → Did
unfolding build_address
address_from_string s = build_address s (str "did")

-- The two conversions that the handlers make: AddressFromString(s).ToDeviceString() and .Addr.
unfoldable pub device_string : Str → Str
unfolding address_from_string to_did_string
device_string s = to_did_string (address_from_string s)

unfoldable pub addr_of : Str → Str
unfolding address_from_string
addr_of s = (address_from_string s).addr
