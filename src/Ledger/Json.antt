-- ===== src/Ledger/Json.antt =====
-- internal/ledger/ledger.go: `rejectSensitiveJSONKeys` on a payload's JSON text, as a tree whose
-- objects have their fields in the order of the text.
use cirewind.Base.{
  Bool, false, ◌||◌, List, [], ◌∷◌, any, Text, text, same_text, ok, Checked, ◌>>◌, refuse_if,
  if◌then◌else◌,
}

mutual
  pub data Json : Type 0 where
    null : Json
    boolean : Bool → Json
    number string : Text → Json
    array : Items → Json
    object : Fields → Json

  pub data Items : Type 0 where
    no_items : Items
    item : Json → Items → Items

  pub data Fields : Type 0 where
    no_fields : Fields
    field : Text → Json → Fields → Fields

abbrev pub forbidden_keys : List Text
forbidden_keys =
    text "authorization"
    ∷ text "authorizationHeader"
    ∷ text "githubToken"
    ∷ text "accessToken"
    ∷ text "tokenValue"
    ∷ text "cookie"
    ∷ text "setCookie"
    ∷ text "secretValue"
    ∷ text "signedUrl"
    ∷ text "signedURL"
    ∷ []

unfoldable pub is_forbidden : Text → Bool
unfolding same_text
is_forbidden key = any (same_text key) forbidden_keys

unfoldable pub has_key : Text → Fields → Bool
unfolding same_text
has_key key no_fields = false
has_key key (field k v rest) = same_text k key || has_key key rest

-- `json.Unmarshal` into a map keeps the last of the fields with one key, so the walk does not see an
-- earlier one. The order in which Go ranges over the map decides only which key an error names.
unfoldable mutual
  unfolding has_key is_forbidden

  pub walk : Json → Checked
  walk (array items) = walk_items items
  walk (object fields) = walk_fields fields
  walk null = ok tt
  walk (boolean b) = ok tt
  walk (number n) = ok tt
  walk (string s) = ok tt

  pub walk_items : Items → Checked
  walk_items no_items = ok tt
  walk_items (item v rest) = walk v >> walk_items rest

  pub walk_fields : Fields → Checked
  walk_fields no_fields = ok tt
  walk_fields (field k v rest) =
      (if has_key k rest
        then ok tt
        else refuse_if (is_forbidden k) "ledger payload contains prohibited field" >> walk v)
      >> walk_fields rest
