-- ===== src/Http/Headers.antt =====
-- The headers of a request of infra/http/client.py.
use fastapi_infra.Common.{
  string_eq, String, Bool, true, false, Option, none, some, List, [], ◌∷◌, ◌≡◌, arith, contains,
  map,
}
use fastapi_infra.Common.Dict.{Dict, lookup, keys, lookup-insert, contains-keys}
use fastapi_infra.Http.Models.{
  has_header, attach, attach_trace_headers, update, request_headers, or_option, trace_id_header,
  request_id_header,
}

contains-map :
    (f : String → String) (xs : List String) (a : String)
    → contains xs a ≡ true
    → contains (map f xs) (f a) ≡ true
contains-map f [] a h = absurd (ground arith)
contains-map f (x ∷ xs) a h = elim (string_eq.dec a x) [
  | yes same ↦ rw same (ground arith)
  | no other ↦ ground (arith, contains-map f xs a)
]

module _ (lower : String → String) where
  attach_keeps :
      (name k v : String) (id : Option String) (headers : Dict String String)
      → lookup k headers ≡ some v
      → lookup k (attach lower name id headers) ≡ some v
  unfolding attach has_header
  attach_keeps name k v none headers h = h
  attach_keeps name k v (some id) headers h = elim (string_eq.dec k name) [
    | yes same ↦
        let there : contains (keys headers) k ≡ true = ground (arith, contains-keys headers k, h) in
        let there : contains (keys headers) name ≡ true = rw same at there in
        let added = contains-map lower (keys headers) name there in ground (arith, added)
    | no other ↦ ground (arith, lookup-insert k name id headers)
  ]

  -- Trace headers are added to a request, and none that it has is replaced, in whatever case it is
  -- written: a header that the defaults and the caller's headers give is sent as they give it.
  pub request_headers-keeps :
      (propagate_trace : Bool) (trace_id request_id : Option String)
      (default_headers headers : Dict String String) (k v : String)
      → lookup k (update default_headers headers) ≡ some v
      → lookup k (request_headers lower propagate_trace trace_id request_id default_headers headers)
        ≡ some v
  unfolding request_headers attach_trace_headers
  request_headers-keeps false trace_id request_id default_headers headers k v h = h
  request_headers-keeps true trace_id request_id default_headers headers k v h =
      let given = update default_headers headers in
      attach_keeps request_id_header k v (or_option request_id trace_id)
        (attach lower trace_id_header trace_id given)
        (attach_keeps trace_id_header k v trace_id given h)
