-- ===== src/Auth/Issued.antt =====
-- A token that infra/plugins/auth/service.py issues, read by the same service.
use fastapi_infra.Common.{
  string_eq, ℕ, String, ◌<>◌, true, false, Option, none, some, List, [], ◌∷◌, ◌≡◌, refl, ◌∙◌, arith,
  is_empty, inl, inr, Bool-cases, if◌then◌else◌, ◌==◌,
}
use fastapi_infra.Common.Int.{ℤ, pos, add_int, has_reached}
use fastapi_infra.Common.Dict.{Dict, lookup, lookup-insert, lookup-nil}
use fastapi_infra.Common.Result.{ok}
use fastapi_infra.Common.Text.{is_blank, lacks, split, split-dots, all_codes-append, dot-append}
use fastapi_infra.Auth.Models.{Json, int, text, list, names, Principal, Toolbox}
use fastapi_infra.Auth.Keys.{b64_encode, is_ascii}
use fastapi_infra.Auth.Tokens.{
  AuthService, Parts, string_set, texts_of, subject_of, is_current, issuer_fits, audience_fits,
  audience_matches, sign, decode_json, signing_input, jwt_signing_secret, jwt_secret_for_key_id,
  compare_texts, read_payload, read_parts, authenticate_jwt, issue_jwt, jwt_header, jwt_payload,
  b64url_json, ttl, named, chosen_key_id, insert_some,
}

input-IsAscii :
    (a b : String) → is_ascii a ≡ true → is_ascii b ≡ true → is_ascii (signing_input a b) ≡ true
input-IsAscii a b ha hb = rw (all_codes-append _ a ("." <> b), dot-append b) (ground arith)

texts_of-names : (F : Type 0) (xs : List String) → texts_of {F = F} (names xs) ≡ xs
unfolding texts_of
texts_of-names F [] = refl
texts_of-names F (x ∷ xs) = ground (arith, texts_of-names F xs)

-- What an optional claim leaves under a key
abbrev given : {F : Type 0} → Option String → Option (Json F) → Option (Json F)
given none before = before
given (some t) before = some (text t)

issuer_fits-given :
    (F : Type 0) (o : Option String) (before : Option (Json F))
    → issuer_fits o (given o before) ≡ true
unfolding issuer_fits
issuer_fits-given F none before = refl
issuer_fits-given F (some t) before = ground arith

audience_fits-given :
    (F : Type 0) (o : Option String) (before : Option (Json F))
    → audience_fits o (given o before) ≡ true
unfolding audience_fits audience_matches
audience_fits-given F none before = refl
audience_fits-given F (some t) before = ground arith

lookup-insert_some :
    (F : Type 0) (j k : String) (o : Option String) (d : Dict String (Json F))
    → lookup j (insert_some k o d) ≡ (if j == k then given o (lookup j d) else lookup j d)
lookup-insert_some F j k none d = ground arith
lookup-insert_some F j k (some t) d = lookup-insert j k (text t) d

split-blank : (s : String) → is_blank s ≡ true → split 46 s ≡ "" ∷ []
unfolding split
split-blank String.[] h = refl
split-blank (String.◌∷◌ c s) h = absurd (ground arith)

some_key :
    (k secret : String) (keyring : Dict String String)
    → lookup k keyring ≡ some secret
    → is_empty keyring ≡ false
some_key k secret [] h = absurd (ground (arith, lookup-nil {V = String} k))
some_key k secret (one ∷ more) h = refl

module _ {B F : Type 0} (tools : Toolbox B F) (service : AuthService F) where
  -- What is written as JSON and encoded is read back as a dict with the same entries.
  pub record IsReadBack (d : Dict String (Json F)) : Type 0 where
    pub found : Dict String (Json F)
    pub is_read : decode_json tools service (b64url_json tools service d) ≡ ok found
    pub same : (k : String) → lookup k found ≡ lookup k d

  -- The alphabet of the encoding is a part of ASCII, without the dot.
  pub record IsEncoding : Type 0 where
    pub undotted : (b : B) → lacks 46 (b64_encode tools b) ≡ true
    pub encodable : (b : B) → is_ascii (b64_encode tools b) ≡ true

  sign-Encoded :
      IsEncoding
      → (input secret : String) {s : String} → sign tools service input secret ≡ ok s
      → (lacks 46 s ≡ true) × (is_ascii s ≡ true)
  unfolding sign
  sign-Encoded law input secret h =
      let b = tools.hmac_sha256 (tools.utf8 secret) (tools.utf8 input) in
      (ground (arith, law.undotted b), ground (arith, law.encodable b))

  b64url_json-Encoded :
      IsEncoding
      → (d : Dict String (Json F))
      → (lacks 46 (b64url_json tools service d) ≡ true)
        × (is_ascii (b64url_json tools service d) ≡ true)
  unfolding b64url_json
  b64url_json-Encoded law d = (law.undotted (tools.dumps d), law.encodable (tools.dumps d))

  jwt_header-found :
      (k : String)
      → (lookup "alg" (jwt_header tools service k) ≡ some (text "HS256"))
        × (lookup "kid" (jwt_header tools service k) ≡ some (text k))
  unfolding lookup string_eq
  jwt_header-found k = (refl, refl)

  -- Parts that are signed with the secret of the key in their header pass for what their payload says.
  read_parts-signed :
      (later : ℕ) (parts : Parts) (header payload : Dict String (Json F)) (k secret : String)
      → decode_json tools service parts.encoded_header ≡ ok header
      → decode_json tools service parts.encoded_payload ≡ ok payload
      → lookup "alg" header ≡ some (text "HS256")
      → lookup "kid" header ≡ some (text k)
      → is_blank k ≡ false
      → jwt_signing_secret service.jwt_signing_keys (some k) ≡ ok secret
      → sign tools service (signing_input parts.encoded_header parts.encoded_payload) secret
        ≡ ok parts.signature
      → is_ascii parts.signature ≡ true
      → read_parts tools service later parts ≡ read_payload tools service later payload
  unfolding read_parts jwt_secret_for_key_id compare_texts
  read_parts-signed later parts header payload k secret read_header read_payload alg kid named known
        signed encodable =
      ground (arith, read_header, read_payload, alg, kid, named, known, signed, encodable)

  authenticate_jwt-parts :
      (later : ℕ) (token : String) (parts : Parts) (k secret : String)
      → split 46 token ≡ parts.encoded_header ∷ parts.encoded_payload ∷ parts.signature ∷ []
      → lookup k service.jwt_signing_keys ≡ some secret
      → authenticate_jwt tools service later token ≡ read_parts tools service later parts
  unfolding authenticate_jwt
  authenticate_jwt-parts later token parts k secret cut known =
      let filled = some_key k secret service.jwt_signing_keys known in
      elim (Bool-cases (is_blank token)) [
        | inl blank ↦ absurd (ground (arith, split-blank token blank, cut))
        | inr there ↦ ground (arith, filled, there, cut)
      ]

  module _ (now : ℕ) (subject : String) (scopes roles : List String) (claims : Dict String (Json F))
      (expires : Option ℤ) where
    abbrev payload : Dict String (Json F)
    payload = jwt_payload tools service now subject scopes roles claims expires

    jwt_payload-lookup :
        (j : String)
        → let before =
            if j == "exp"
            then some (int (add_int now (ttl tools service expires)))
            else (if j == "iat"
                then some (int (pos now))
                else (if j == "roles"
                    then some (list (names (tools.sorted_set roles)))
                    else (if j == "scopes"
                        then some (list (names (tools.sorted_set scopes)))
                        else (if j == "sub" then some (text subject) else lookup j claims)))) in
          let issued = if j == "iss" then given service.jwt_issuer before else before in
          lookup j payload ≡ (if j == "aud" then given service.jwt_audience issued else issued)
    unfolding jwt_payload
    jwt_payload-lookup j = simp (
      lookup-insert_some F j "aud" service.jwt_audience,
      lookup-insert_some F j "iss" service.jwt_issuer,
      lookup-insert {V = Json F} j,
    )

    jwt_payload-found :
        (lookup "sub" payload ≡ some (text subject))
        × (lookup "exp" payload ≡ some (int (add_int now (ttl tools service expires))))
        × (lookup "scopes" payload ≡ some (list (names (tools.sorted_set scopes))))
        × (lookup "roles" payload ≡ some (list (names (tools.sorted_set roles))))
        × (lookup "iss" payload ≡ given service.jwt_issuer (lookup "iss" claims))
        × (lookup "aud" payload ≡ given service.jwt_audience (lookup "aud" claims))
    unfolding string_eq
    jwt_payload-found = (
      jwt_payload-lookup "sub",
      jwt_payload-lookup "exp",
      jwt_payload-lookup "scopes",
      jwt_payload-lookup "roles",
      jwt_payload-lookup "iss",
      jwt_payload-lookup "aud",
    )

    read_payload-jwt_payload :
        (later : ℕ) (found : Dict String (Json F))
        → ((k : String) → lookup k found ≡ lookup k payload)
        → is_blank subject ≡ false
        → has_reached later (add_int now (ttl tools service expires)) ≡ false
        → read_payload tools service later found
          ≡ ok record {
            subject = subject;
            scopes = tools.sorted_set scopes;
            roles = tools.sorted_set roles;
            claims = found;
          }
    unfolding read_payload subject_of is_current string_set
    read_payload-jwt_payload later found same present ahead =
        let (sub, exp, scp, rol, iss, aud) = jwt_payload-found in
        rw
          (
            same "sub",
            same "exp",
            same "scopes",
            same "roles",
            same "iss",
            same "aud",
            sub,
            exp,
            scp,
            rol,
            iss,
            aud,
          )
          (ground (
            arith,
            texts_of-names F (tools.sorted_set scopes),
            texts_of-names F (tools.sorted_set roles),
            issuer_fits-given F service.jwt_issuer (lookup "iss" claims),
            audience_fits-given F service.jwt_audience (lookup "aud" claims),
          ))

    -- The token that is issued under the key `k`
    issue_jwt-made :
        IsEncoding
        → (key_id : Option String) (k secret : String) → chosen_key_id tools service key_id ≡ some k
        → lookup k service.jwt_signing_keys ≡ some secret
        → let h = b64url_json tools service (jwt_header tools service k) in
          let p = b64url_json tools service payload in
          (signature : String) × (sign tools service (signing_input h p) secret ≡ ok signature)
          × (issue_jwt tools service now subject scopes roles claims expires key_id
              ≡ ok (signing_input h p <> "." <> signature))
    unfolding issue_jwt jwt_signing_secret sign
    issue_jwt-made law key_id k secret chosen known =
        let h = b64url_json tools service (jwt_header tools service k) in
        let p = b64url_json tools service payload in
        let plain =
          input-IsAscii h p (b64url_json-Encoded law (jwt_header tools service k)).1
            (b64url_json-Encoded law payload).1 in
        let signature =
          b64_encode tools
            (tools.hmac_sha256 (tools.utf8 secret) (tools.utf8 (signing_input h p))) in
        (signature, ground (arith, plain), ground (arith, chosen, known, plain))

    -- Where the chosen key is known, the token is issued, and the service accepts it as long as its time
    -- to live is not over. The principal has the subject that was given, and the sorted scopes and
    -- roles, and the claims are those of the payload. It is assumed that JSON which was written is
    -- read back, that the encoding is ASCII without dots, and that subject and key are not empty.
    pub authenticate_jwt-issue_jwt :
        IsEncoding
        → (later : ℕ) (key_id : Option String) (k secret : String)
        → chosen_key_id tools service key_id ≡ some k
        → lookup k service.jwt_signing_keys ≡ some secret
        → IsReadBack (jwt_header tools service k)
        → IsReadBack payload
        → is_blank k ≡ false
        → is_blank subject ≡ false
        → has_reached later (add_int now (ttl tools service expires)) ≡ false
        → (token : String) × (p : Principal F) × (issue_jwt tools service now subject scopes roles
              claims expires key_id
            ≡ ok token)
          × (authenticate_jwt tools service later token ≡ ok p)
          × (p.subject ≡ subject)
          × (p.scopes ≡ tools.sorted_set scopes)
          × (p.roles ≡ tools.sorted_set roles)
          × ((c : String) → lookup c p.claims ≡ lookup c payload)
    unfolding jwt_signing_secret
    authenticate_jwt-issue_jwt law later key_id k secret chosen known header body named present
          ahead =
        let h = b64url_json tools service (jwt_header tools service k) in
        let b = b64url_json tools service payload in
        let (s, signed, issued) = issue_jwt-made law key_id k secret chosen known in
        let parts : Parts = record { encoded_header = h; encoded_payload = b; signature = s } in
        let (undotted, encodable) = sign-Encoded law (signing_input h b) secret signed in
        let cut =
          split-dots h b s (b64url_json-Encoded law (jwt_header tools service k)).0
            (b64url_json-Encoded law payload).0 undotted in
        let (alg, kid) = jwt_header-found k in
        let read =
          read_parts-signed later parts header.found body.found k secret header.is_read body.is_read
            (header.same "alg" ∙ alg) (header.same "kid" ∙ kid) named (ground (arith, known)) signed
            encodable in
        let opened =
          authenticate_jwt-parts later (signing_input h b <> "." <> s) parts k secret cut known in
        let passed = read_payload-jwt_payload later body.found body.same present ahead in
        (
          signing_input h b <> "." <> s,
          _,
          issued,
          opened ∙ read ∙ passed,
          refl,
          refl,
          refl,
          body.same,
        )
