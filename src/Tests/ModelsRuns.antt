-- ===== src/Tests/ModelsRuns.antt =====
-- The list of models on concrete inputs.
use qoder_cpa.Prelude.{
  true, List, [], ◌∷◌, none, some, Text, text_eq, codes, pos, ◌≡◌, refl, arith, lookup, insert,
  trim_space,
}
use qoder_cpa.Transport.{digits}
use qoder_cpa.Models.{
  Model, ModelInfo, Listing, no_listing, public_model_id, display_name_for_model, first_free,
  unique_public_model_id, list_model, list_models,
}
use qoder_cpa.Models.Listed.{IsListed}
use qoder_cpa.Models.Catalog.{list_models-IsListed}

program : Unit {0}
unfolding lookup insert trim_space digits public_model_id display_name_for_model first_free
    unique_public_model_id list_model list_models
program = tt

abbrev model : Text → Text → Model
model id name = record { id = id; name = name; is_reasoning = true; max_input_tokens = pos 1000 }

-- Two models of one name, the third named as the second is called inside.
abbrev upstream : List Model
upstream =
    model (codes "qoder/a") (codes "Fast")
    ∷ model (codes "b") (codes "c")
    ∷ model (codes "c") (codes "Fast")
    ∷ model (codes "c") (codes "again")
    ∷ []

abbrev ids : List ModelInfo → List Text
ids [] = []
ids (i ∷ is) = i.id ∷ ids is

listed_ids :
    elim (list_models upstream no_listing) [ none ↦ [] | some l ↦ ids l.models ]
    ≡ codes "qoder/Fast" ∷ codes "qoder/c" ∷ codes "qoder/c-2" ∷ []
unfolding program
listed_ids = refl

list_models-IsListed_example :
    (l : Listing) × (list_models upstream no_listing ≡ some l) × IsListed l
list_models-IsListed_example = list_models-IsListed upstream (omega arith)
