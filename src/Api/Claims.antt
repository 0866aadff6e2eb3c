-- ===== src/Api/Claims.antt =====
-- Who is shown the text of a manifest.
use ratatoskr_channel_digest.Prelude.{
  ℕ, String, true, Option, none, some, ◌≡◌, refl, arith, select, select-true, Member, Member-select,
  str_eq, str_eq_iff, maybe, Bool-cases, Option-cases, inl, inr,
}
use ratatoskr_channel_digest.Contracts.{External}
use ratatoskr_channel_digest.Schema.{Db, Manifest}
use ratatoskr_channel_digest.Storage.{ok, World, query, attempt, pure, ◌>>=◌}
use ratatoskr_channel_digest.Api.{
  ApiParsers, Response, get_manifest, manifest_response, is_claimed, parsed,
}

query-answer :
    {E A B : Type 0} (e : E) (f : Db → A) (g : A → B) (w : World) (x : B)
    → ((query e f >>= λ a. pure (g a)) w).0 ≡ ok x
    → g (f w.committed) ≡ x
unfolding query attempt ◌>>=◌ pure
query-answer e f g w x h = elim (Bool-cases (w.fails w.calls)) [
  | inl y ↦ absurd (ground (arith, y, h))
  | inr y ↦ ground (arith, y, h)
]

found :
    (o : Option Manifest) (text : String)
    → manifest_response o ≡ Response.body text
    → (m : Manifest) × (o ≡ some m) × (m.canonical_text ≡ some text)
found none text h = absurd (cc)
found (some m) text h = elim (Option-cases m.canonical_text) [
  | inl e ↦ absurd (ground (arith, e, h))
  | inr (t, e) ↦ (m, refl, ground (arith, e, h))
]

claimed :
    (owner manifest run : ℕ) (digest : String) (m : Manifest)
    → is_claimed manifest owner run digest m ≡ true
    → (m.manifest_id ≡ manifest) × (m.owner_id ≡ owner) × (m.run_id ≡ run) × (m.sha256 ≡ digest)
claimed owner manifest run digest m h =
    let same_text : str_eq m.sha256 digest ≡ true = ground (arith, h) in
    (
      ground (arith, h),
      ground (arith, h),
      ground (arith, h),
      (str_eq_iff m.sha256 digest).0 same_text,
    )

module _ ⦃ext : External⦄ ⦃parse : ApiParsers⦄ (owner manifest : ℕ) where
  -- A manifest is shown only to its owner, and only where the two claims of the request parse to the
  -- run and the digest of the row: the text is that of a stored manifest with this identity, owner,
  -- run and digest.
  pub get_manifest-claimed :
      (run_header digest_header : Option String) (w : World) (text : String)
      → (get_manifest owner manifest run_header digest_header w).0 ≡ ok (Response.body text)
      → (run : ℕ) × (digest : String) × (parsed parse.parse_run run_header ≡ some run)
        × (parsed parse.parse_digest digest_header ≡ some digest)
        × (m : Manifest) × Member m w.committed.manifests
        × (m.manifest_id ≡ manifest)
        × (m.owner_id ≡ owner)
        × (m.run_id ≡ run)
        × (m.sha256 ≡ digest)
        × (m.canonical_text ≡ some text)
  unfolding get_manifest maybe pure
  get_manifest-claimed run_header digest_header w text h =
      elim (Option-cases (parsed parse.parse_run run_header)) [
        | inl e ↦ absurd (ground (arith, e, h))
        | inr (run, e) ↦ elim (Option-cases (parsed parse.parse_digest digest_header)) [
          | inl f ↦ absurd (ground (arith, e, f, h))
          | inr (digest, f) ↦
              let row =
                found (select (is_claimed manifest owner run digest) w.committed.manifests) text (
                  query-answer (Response.status 503)
                    (λ db. select (is_claimed manifest owner run digest) db.manifests)
                    manifest_response w (Response.body text) (rw (e, f) at h)) in
              let fields = claimed owner manifest run digest row.0 (
                select-true (is_claimed manifest owner run digest) w.committed.manifests row.0
                  row.1) in
              (
                run,
                digest,
                e,
                f,
                row.0,
                Member-select (is_claimed manifest owner run digest) w.committed.manifests row.0
                    row.1,
                fields.0,
                fields.1,
                fields.2,
                fields.3,
                row.2,
              )
        ]
      ]
