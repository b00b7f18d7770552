-- ===== src/Parsers/Loading/Streams.antt =====
-- `load_all` of safe_yaml.py: which documents of a stream are yielded, and how it ends.
use codewizard_sherpa.Prelude.{
  ℕ, ◌≡◌, refl, ap, Option, none, some, List, [], ◌∷◌, ◌++◌, All, inl, inr, Option-cases,
}
use codewizard_sherpa.Parsers.Depth.{Heap}
use codewizard_sherpa.Parsers.Loading.{
  Document, DecodeError, LoadError, handled, document_error, generate,
}

module _ (max_depth : ℕ) (last : Option DecodeError) where
  -- The documents behind those that a stream yielded, by how it ended.
  abbrev pub Ends : List (Heap × Document) → Option LoadError → Type 0
  Ends [] raised = raised ≡ handled last
  Ends (item ∷ items) raised =
      (e : LoadError) × (document_error max_depth item ≡ some e) × (raised ≡ some e)

  -- A stream yields the documents in front of the first that is not accepted, in order, and then
  -- raises the error of that document; where all are accepted, it ends as the decoder does.
  pub generate-Yields :
      (items : List (Heap × Document))
      → (rest : List (Heap × Document)) × (items ≡ (generate max_depth items last).yielded ++ rest)
        × All (λ item. document_error max_depth item ≡ none) (generate max_depth items last).yielded
        × Ends rest (generate max_depth items last).raised
  unfolding generate
  generate-Yields [] = ([], refl, tt, refl)
  generate-Yields (item ∷ items) = elim (Option-cases (document_error max_depth item)) [
    | inl p ↦
        let (rest, e, free, ends) = generate-Yields items in
        rw (p, generate) (rest, ap (λ l. item ∷ l) e, (p, free), ends)
    | inr (e, p) ↦ rw (p, generate) (item ∷ items, refl, tt, (e, p, refl))
  ]
