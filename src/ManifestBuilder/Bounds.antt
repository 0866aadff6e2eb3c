-- ===== src/ManifestBuilder/Bounds.antt =====
-- What a manifest that was built says of its sources, and the bounds that it is within.
use ratatoskr_channel_digest.Prelude.{
  ℕ, suc, ◌≤◌, String, not, ◌||◌, ◌&&◌, List, [], ◌∷◌, ◌≡◌, refl, ap, ◌∙◌, arith, ltb, length,
  Bool-cases, Option-cases, inl, inr, length-sort,
}
use ratatoskr_channel_digest.Contracts.{ContractManifest, External}
use ratatoskr_channel_digest.Storage.{ok}
use ratatoskr_channel_digest.Storage.Results.{
  Answers, Answers-ok, Answers-err, Answers-and_then, Answers-any, Answers-unless,
}
use ratatoskr_channel_digest.Coordinator.{CanonicalManifest}
use ratatoskr_channel_digest.ManifestBuilder.{
  ManifestSource, ManifestError, instant, contract_source, contract_sources, channels_of,
  contract_manifest, is_before, serialize, build,
}

module _ ⦃ext : External⦄ where
  -- Each source has a contract source, in the same place.
  contract_sources-length :
      (ss : List ManifestSource)
      → Answers (λ selected. length selected ≡ length ss) (contract_sources ss)
  unfolding contract_sources
  contract_sources-length [] = Answers-ok [] refl
  contract_sources-length (s ∷ ss) =
      Answers-and_then (λ a. Unit) (contract_source s) _ (Answers-any _)
        λ first u.
          Answers-and_then (λ rest. length rest ≡ length ss) (contract_sources ss) _
            (contract_sources-length ss) λ rest e. Answers-ok (first ∷ rest) (ap suc e)

  module _ (manifest owner run : ℕ) (sources : List ManifestSource) where
    -- The manifest has these identities, counts the sources and their channels within the bounds of
    -- the contract, and its digest is that of its text.
    abbrev pub Describes : CanonicalManifest → Type 0
    Describes m =
        ((m.manifest_id ≡ manifest) × (m.owner_id ≡ owner) × (m.run_id ≡ run))
        × (m.source_count ≡ length sources)
        × (m.source_count ≤ ext.max_sources)
        × (m.channel_count ≡ length (channels_of sources))
        × (m.channel_count ≤ ext.max_channels)
        × (m.sha256 ≡ ext.sha256_text m.text)

    serialize-Describes :
        (m : ContractManifest)
        → length m.sources ≡ length sources
        → length sources ≤ ext.max_sources
        → length (channels_of sources) ≤ ext.max_channels
        → Answers Describes (serialize manifest owner run sources m)
    unfolding serialize
    serialize-Describes m e few fewer =
        elim (Bool-cases
          (ext.parses_manifest_ref m.manifest_ref && ext.parses_run_id m.digest_run_id)) [
            | inr f ↦ rw f (Answers-err _)
            | inl f ↦ elim (Option-cases (ext.canonical_text m)) [
              | inl g ↦ rw (f, g) (Answers-err _)
              | inr (text, g) ↦
                  rw (f, g)
                    (Answers-ok _ ((refl, refl, refl), e, omega (arith, e, few), refl, fewer, refl))
            ]
          ]

    -- A manifest that is built has the identities that it was asked for, counts as many sources as were
    -- given and as many channels as they come from, keeps both counts within the limits of the
    -- contract, and carries the digest of its own text.
    pub build-Describes :
        (window_start window_end : String) (m : CanonicalManifest)
        → build manifest owner run window_start window_end sources ≡ ok m
        → Describes m
    unfolding build
    build-Describes window_start window_end m h =
        (Answers-unless
            (ltb ext.max_sources (length sources)
              || ltb ext.max_channels (length (channels_of sources)))
            ManifestError.limit _
            λ small.
              Answers-and_then (λ a. Unit) (instant window_start) _ (Answers-any _)
                λ start u.
                  Answers-and_then (λ a. Unit) (instant window_end) _ (Answers-any _)
                    λ end v.
                      Answers-unless (not (ext.window_valid start end)) ManifestError.invalid _
                        λ valid.
                          Answers-and_then (λ selected. length selected ≡ length sources)
                            (contract_sources sources) _ (contract_sources-length sources)
                            λ selected e.
                              serialize-Describes
                                (contract_manifest manifest owner run start end selected)
                                (length-sort is_before selected ∙ e) (ground (arith, small))
                                (ground (arith, small))).is
          m h
