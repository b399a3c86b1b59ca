-- ===== src/Tests/Codecs.antt =====
-- A concrete encoding of lists of records, in the place of encoding/json.
use mingyue_go.Base.{
  Bool, List, Option, Text, [], ap, arith, false, is_empty, none, refl, some, suc, trim_left,
  trim_right, trim_space, true, zero, ℕ, ◌∙◌, ◌∷◌, ◌≡◌,
}
use mingyue_go.Auth.{Role, viewer, operator, admin, unknown}
use mingyue_go.Auth.Keystore.{KeyEntry, Codec as KeyCodec}
use mingyue_go.Share.{Share, ShareType, smb, nfs, other_type}
use mingyue_go.Share.Store.{Codec as ShareCodec}

-- A list of texts: every rune is raised by one, and 0 ends a text.
raised : Text → Text → Text
raised [] rest = 0 ∷ rest
raised (c ∷ s) rest = suc c ∷ raised s rest

pack : List Text → Text
unfolding raised
pack [] = []
pack (t ∷ ts) = raised t (pack ts)

into_first : ℕ → List Text → List Text
into_first c [] = []
into_first c (t ∷ ts) = (c ∷ t) ∷ ts

unpack : Text → List Text
unfolding into_first
unpack [] = []
unpack (zero ∷ s) = [] ∷ unpack s
unpack (suc c ∷ s) = into_first c (unpack s)

unpack-raised : (t rest : Text) → unpack (raised t rest) ≡ t ∷ unpack rest
unfolding raised unpack
unpack-raised [] rest = refl
unpack-raised (c ∷ t) rest = ap (into_first c) (unpack-raised t rest)

unpack-pack : (ts : List Text) → unpack (pack ts) ≡ ts
unfolding pack unpack
unpack-pack [] = refl
unpack-pack (t ∷ ts) = unpack-raised t (pack ts) ∙ ap (λ r. t ∷ r) (unpack-pack ts)

module _ {A : Type 0} (to : A → List Text) (from : List Text → Option A)
    (from-to : (x : A) → from (to x) ≡ some x) where
  encode_all : List A → List Text
  encode_all [] = []
  encode_all (x ∷ xs) = pack (to x) ∷ encode_all xs

  decode_all : List Text → Option (List A)
  decode_all [] = some []
  decode_all (t ∷ ts) = elim (from (unpack t)) [
    | none ↦ none
    | some x ↦ elim (decode_all ts) [ none ↦ none | some xs ↦ some (x ∷ xs) ]
  ]

  decode_all-encode_all : (xs : List A) → decode_all (encode_all xs) ≡ some xs
  unfolding decode_all encode_all
  decode_all-encode_all [] = refl
  decode_all-encode_all (x ∷ xs) =
      ground (arith, unpack-pack (to x), from-to x, decode_all-encode_all xs)

  pub encode_list : List A → Text
  unfolding encode_all pack
  encode_list xs = b'#' ∷ pack (encode_all xs)

  pub decode_list : Text → Option (List A)
  unfolding decode_all unpack
  decode_list [] = none
  decode_list (c ∷ s) = decode_all (unpack s)

  pub decode_list-encode_list : (xs : List A) → decode_list (encode_list xs) ≡ some xs
  unfolding decode_list encode_list
  decode_list-encode_list xs =
      ap decode_all (unpack-pack (encode_all xs)) ∙ decode_all-encode_all xs

-- A text that starts with '#' is not blank.
pub hash_not_blank : (s : Text) → is_empty (trim_space (b'#' ∷ s)) ≡ false
unfolding trim_space trim_right trim_left
hash_not_blank s = refl

bool_text : Bool → Text
bool_text true = 1 ∷ []
bool_text false = []

text_bool : Text → Bool
text_bool [] = false
text_bool (c ∷ s) = true

text_bool-bool_text : (b : Bool) → text_bool (bool_text b) ≡ b
unfolding text_bool bool_text
text_bool-bool_text true = refl
text_bool-bool_text false = refl

role_code : Role → Text
role_code viewer = 0 ∷ []
role_code operator = 1 ∷ []
role_code admin = 2 ∷ []
role_code (unknown s) = 3 ∷ s

code_role : Text → Role
code_role (zero ∷ s) = viewer
code_role (suc zero ∷ s) = operator
code_role (suc (suc zero) ∷ s) = admin
code_role (c ∷ s) = unknown s
code_role [] = viewer

code_role-role_code : (r : Role) → code_role (role_code r) ≡ r
unfolding code_role role_code
code_role-role_code viewer = refl
code_role-role_code operator = refl
code_role-role_code admin = refl
code_role-role_code (unknown s) = refl

type_code : ShareType → Text
type_code smb = 0 ∷ []
type_code nfs = 1 ∷ []
type_code (other_type s) = 2 ∷ s

code_type : Text → ShareType
code_type (zero ∷ s) = smb
code_type (suc zero ∷ s) = nfs
code_type (c ∷ s) = other_type s
code_type [] = smb

code_type-type_code : (r : ShareType) → code_type (type_code r) ≡ r
unfolding code_type type_code
code_type-type_code smb = refl
code_type-type_code nfs = refl
code_type-type_code (other_type s) = refl

unfoldable pub entry_texts : KeyEntry → List Text
unfolding role_code
entry_texts e = e.key ∷ role_code e.role ∷ e.subject ∷ (e.created_at ∷ []) ∷ []

unfoldable pub texts_entry : List Text → Option KeyEntry
unfolding code_role
texts_entry (k ∷ r ∷ s ∷ (n ∷ []) ∷ []) =
    some (record { key = k; role = code_role r; subject = s; created_at = n })
texts_entry _ = none

pub texts_entry-entry_texts : (e : KeyEntry) → texts_entry (entry_texts e) ≡ some e
unfolding texts_entry entry_texts
texts_entry-entry_texts e = ap (λ r. some (record e { role = r })) (code_role-role_code e.role)

share_texts : Share → List Text
unfolding type_code bool_text
share_texts x =
    x.name
    ∷ type_code x.kind
    ∷ x.path
    ∷ x.comment
    ∷ bool_text x.read_only
    ∷ bool_text x.enabled
    ∷ x.valid_users
    ∷ x.write_list
    ∷ x.create_mask
    ∷ x.directory_mask
    ∷ x.hosts
    ∷ []

texts_share : List Text → Option Share
unfolding code_type text_bool
texts_share (a ∷ b ∷ c ∷ d ∷ e ∷ f ∷ g ∷ h ∷ i ∷ j ∷ k ∷ []) = some (record {
  name = a;
  kind = code_type b;
  path = c;
  comment = d;
  read_only = text_bool e;
  enabled = text_bool f;
  valid_users = g;
  write_list = h;
  create_mask = i;
  directory_mask = j;
  hosts = k;
})
texts_share _ = none

texts_share-share_texts : (x : Share) → texts_share (share_texts x) ≡ some x
unfolding texts_share share_texts
texts_share-share_texts x =
    ap
      (λ r. some (record x {
        kind = r;
        read_only = text_bool (bool_text x.read_only);
        enabled = text_bool (bool_text x.enabled);
      }))
      (code_type-type_code x.kind)
    ∙ ap (λ r. some (record x { read_only = r; enabled = text_bool (bool_text x.enabled) }))
        (text_bool-bool_text x.read_only)
    ∙ ap (λ r. some (record x { enabled = r })) (text_bool-bool_text x.enabled)

pub encode_list_not_blank :
    (es : List KeyEntry)
    → is_empty (trim_space (encode_list entry_texts texts_entry texts_entry-entry_texts es)) ≡ false
unfolding encode_list
encode_list_not_blank es = hash_not_blank _

unfoldable pub key_codec : KeyCodec
unfolding encode_list decode_list entry_texts texts_entry
key_codec = record {
  encode = encode_list entry_texts texts_entry texts_entry-entry_texts;
  decode = decode_list entry_texts texts_entry texts_entry-entry_texts;
  decode-encode = decode_list-encode_list entry_texts texts_entry texts_entry-entry_texts;
  encode_not_blank = λ es. encode_list_not_blank es;
}

pub share_codec : ShareCodec Share
share_codec = record {
  encode = encode_list share_texts texts_share texts_share-share_texts;
  decode = decode_list share_texts texts_share texts_share-share_texts;
  decode-encode = decode_list-encode_list share_texts texts_share texts_share-share_texts;
}
