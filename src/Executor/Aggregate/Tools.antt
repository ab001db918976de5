-- ===== src/Executor/Aggregate/Tools.antt =====
-- The tool calls that applyAggregateChunk (executor_aggregate.go) puts together from their deltas.
use qoder_cpa.Prelude.{
  List, [], ◌∷◌, ◌++◌, Option, none, some, Text, text_eq, ◌==◌, if◌then◌else◌, ◌≡◌, refl, sym, ap,
  ◌∙◌, append_assoc, append-nil, inl, inr, Bool-cases, ℤ, int_eq, lookup, lookup-insert, eq→path,
}
use qoder_cpa.Chat.{ToolDelta}
use qoder_cpa.Executor.Aggregate.{ToolCall, tool_at, apply_tool, apply_tools}

-- The arguments of a call that may be missing.
abbrev call_arguments : Option ToolCall → Text
call_arguments none = []
call_arguments (some t) = t.arguments

abbrev pub arguments_at : ℤ → List (ℤ × ToolCall) → Text
arguments_at k tools = call_arguments (lookup k tools)

-- The pieces of the arguments of one index, in order.
unfoldable pub arguments_for : ℤ → List ToolDelta → Text
arguments_for k [] = []
arguments_for k (d ∷ ds) =
    let rest = arguments_for k ds in if d.index == k then d.function.arguments ++ rest else rest

tool_at-arguments :
    (o : Option ToolCall) (d : ToolDelta) → (tool_at o d).arguments ≡ call_arguments o
tool_at-arguments none d = refl
tool_at-arguments (some t) d = refl

apply_tool-arguments :
    (k : ℤ) (tools : List (ℤ × ToolCall)) (d : ToolDelta)
    → arguments_at k (apply_tool tools d) ≡ (
        if d.index == k then arguments_at k tools ++ d.function.arguments else arguments_at k tools)
unfolding apply_tool
apply_tool-arguments k tools d = elim (Bool-cases (d.index == k)) [
  | inl same ↦
      let here : d.index ≡ k = eq→path d.index k same in
      ap call_arguments (lookup-insert d.index k _ tools)
      ∙ rw same (
          ap (λ t. t ++ d.function.arguments)
            (tool_at-arguments (lookup d.index tools) d ∙ ap (λ i. arguments_at i tools) here))
  | inr other ↦ ap call_arguments (lookup-insert d.index k _ tools) ∙ rw other refl
]

apply_tools-arguments :
    (k : ℤ) (ds : List ToolDelta) (tools : List (ℤ × ToolCall))
    → arguments_at k (apply_tools ds tools) ≡ arguments_at k tools ++ arguments_for k ds
unfolding apply_tools arguments_for
apply_tools-arguments k [] tools = sym (append-nil (arguments_at k tools))
apply_tools-arguments k (d ∷ ds) tools = elim (Bool-cases (d.index == k)) [
  | inl same ↦
      apply_tools-arguments k ds (apply_tool tools d)
      ∙ ap (λ t. t ++ arguments_for k ds) (apply_tool-arguments k tools d)
      ∙ rw (arguments_for, same)
          (append_assoc (arguments_at k tools) d.function.arguments (arguments_for k ds))
  | inr other ↦
      apply_tools-arguments k ds (apply_tool tools d)
      ∙ ap (λ t. t ++ arguments_for k ds) (apply_tool-arguments k tools d)
      ∙ rw (arguments_for, other) refl
]

-- The arguments of the call of an index are all the pieces with that index, in order, however the
-- deltas of other calls stand between them.
pub arguments_at-apply_tools :
    (k : ℤ) (ds : List ToolDelta) → arguments_at k (apply_tools ds []) ≡ arguments_for k ds
unfolding lookup
arguments_at-apply_tools k ds = apply_tools-arguments k ds []
