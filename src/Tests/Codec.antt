-- ===== src/Tests/Codec.antt =====
-- A concrete encoder and decoder of chunks, in place of encoding/json, for the tests and the
-- witnesses. Numbers stand for themselves, and a list is led by its length.
use qoder_cpa.Prelude.{
  ℕ, zero, suc, Bool, true, false, List, [], ◌∷◌, ◌++◌, Option, none, some, Text, text_eq, ◌==◌,
  codes, if◌then◌else◌, length, ℤ, pos, negsuc, ◌≡◌, refl, subst, append_assoc,
}
use qoder_cpa.Chat.{
  FunctionDelta, ToolDelta, Delta, Choice, Chunk, Usage, ToolCallInfo, Json, IsLawful,
}

pub record Codec (A : Type 0) : Type 0 where
  pub put : A → Text
  pub get : Text → Option (A × Text)
  pub back : (a : A) (rest : Text) → get (put a ++ rest) ≡ some (a, rest)

abbrev pub nat_codec : Codec ℕ
nat_codec = record {
  put = λ n. n ∷ [];
  get = λ s. elim s [ [] ↦ none | n ∷ rest ↦ some (n, rest) ];
  back = λ n rest. refl;
}

module _ {A B : Type 0} (a_codec : Codec A) (b_codec : Codec B) where
  abbrev pub get_second : A → Option (B × Text) → Option ((A × B) × Text)
  get_second a none = none
  get_second a (some (b, rest)) = some ((a, b), rest)

  abbrev pub get_first : Option (A × Text) → Option ((A × B) × Text)
  get_first none = none
  get_first (some (a, rest)) = get_second a (b_codec.get rest)

  abbrev pub pair_codec : Codec (A × B)
  pair_codec = record {
    put = λ x. a_codec.put x.0 ++ b_codec.put x.1;
    get = λ s. get_first (a_codec.get s);
    back = λ x rest.
        rw
          (
            append_assoc (a_codec.put x.0) (b_codec.put x.1) rest,
            a_codec.back x.0 (b_codec.put x.1 ++ rest),
            b_codec.back x.1 rest,
          )
          refl;
  }

module _ {A B : Type 0} (to : A → B) (from : B → A) (same : (a : A) → from (to a) ≡ a) where
  abbrev pub get_as : Option (B × Text) → Option (A × Text)
  get_as none = none
  get_as (some (b, rest)) = some (from b, rest)

  abbrev pub as_codec : Codec B → Codec A
  as_codec codec = record {
    put = λ a. codec.put (to a);
    get = λ s. get_as (codec.get s);
    back = λ a rest. rw (codec.back (to a) rest, same a) refl;
  }

module _ {A : Type 0} (codec : Codec A) where
  abbrev pub put_all : List A → Text
  put_all [] = []
  put_all (a ∷ items) = codec.put a ++ put_all items

  abbrev pub cons_to : A → Option (List A × Text) → Option (List A × Text)
  cons_to a none = none
  cons_to a (some (items, rest)) = some (a ∷ items, rest)

  abbrev pub get_count : ℕ → Text → Option (List A × Text)
  get_count zero s = some ([], s)
  get_count (suc n) s = elim (codec.get s) [
    | none ↦ none
    | some (a, rest) ↦ cons_to a (get_count n rest)
  ]

  pub get_count-put_all :
      (items : List A) (rest : Text)
      → get_count (length items) (put_all items ++ rest) ≡ some (items, rest)
  get_count-put_all [] rest = refl
  get_count-put_all (a ∷ items) rest =
      rw
        (
          append_assoc (codec.put a) (put_all items) rest,
          get_count,
          codec.back a (put_all items ++ rest),
          get_count-put_all items rest,
        )
        refl

  abbrev pub get_list : Text → Option (List A × Text)
  get_list [] = none
  get_list (n ∷ s) = get_count n s

  abbrev pub list_codec : Codec (List A)
  list_codec = record {
    put = λ items. length items ∷ put_all items;
    get = get_list;
    back = get_count-put_all;
  }

abbrev pub int_to : ℤ → ℕ × ℕ
int_to (pos n) = (0, n)
int_to (negsuc n) = (1, n)

abbrev pub int_from : ℕ × ℕ → ℤ
int_from (zero, n) = pos n
int_from (suc m, n) = negsuc n

pub int_same : (a : ℤ) → int_from (int_to a) ≡ a
int_same (pos n) = refl
int_same (negsuc n) = refl

abbrev pub int_codec : Codec ℤ
int_codec = as_codec int_to int_from int_same (pair_codec nat_codec nat_codec)

abbrev pub bool_to : Bool → ℕ
bool_to false = 0
bool_to true = 1

abbrev pub bool_from : ℕ → Bool
bool_from zero = false
bool_from (suc n) = true

pub bool_same : (a : Bool) → bool_from (bool_to a) ≡ a
bool_same true = refl
bool_same false = refl

abbrev pub bool_codec : Codec Bool
bool_codec = as_codec bool_to bool_from bool_same nat_codec

abbrev pub text_codec : Codec Text
text_codec = list_codec nat_codec

module _ {A : Type 0} where
  abbrev pub option_to : Option A → List A
  option_to none = []
  option_to (some a) = a ∷ []

  abbrev pub option_from : List A → Option A
  option_from [] = none
  option_from (a ∷ items) = some a

  pub option_same : (o : Option A) → option_from (option_to o) ≡ o
  option_same none = refl
  option_same (some a) = refl

  abbrev pub option_codec : Codec A → Codec (Option A)
  option_codec codec = as_codec option_to option_from option_same (list_codec codec)

abbrev pub function_codec : Codec FunctionDelta
function_codec =
    as_codec (λ f. (f.name, f.arguments)) (λ x. record { name = x.0; arguments = x.1 }) (λ f. refl)
      (pair_codec text_codec text_codec)

abbrev pub tool_codec : Codec ToolDelta
tool_codec =
    as_codec (λ t. (t.index, (t.call_id, (t.kind, t.function))))
      (λ x. record { index = x.0; call_id = x.1.0; kind = x.1.1.0; function = x.1.1.1 }) (λ t. refl)
      (pair_codec int_codec (pair_codec text_codec (pair_codec text_codec function_codec)))

abbrev pub delta_codec : Codec Delta
delta_codec =
    as_codec (λ d. (d.role, (d.content, (d.reasoning, d.tool_calls))))
      (λ x. record { role = x.0; content = x.1.0; reasoning = x.1.1.0; tool_calls = x.1.1.1 })
      (λ d. refl)
      (pair_codec text_codec
        (pair_codec text_codec (pair_codec text_codec (list_codec tool_codec))))

abbrev pub choice_codec : Codec Choice
choice_codec =
    as_codec (λ c. (c.index, (c.delta, c.finish_reason)))
      (λ x. record { index = x.0; delta = x.1.0; finish_reason = x.1.1 }) (λ c. refl)
      (pair_codec int_codec (pair_codec delta_codec (option_codec text_codec)))

abbrev pub counts_codec : Codec (ℤ × (ℤ × ℤ))
counts_codec = pair_codec int_codec (pair_codec int_codec int_codec)

abbrev pub usage_codec : Codec Usage
usage_codec =
    as_codec
      (λ u. (
        (u.prompt_tokens, (u.completion_tokens, u.total_tokens)),
        (u.billable, (u.cached_tokens, (u.cacheable_tokens, u.reasoning_tokens))),
      ))
      (λ x. record {
        prompt_tokens = x.0.0;
        completion_tokens = x.0.1.0;
        total_tokens = x.0.1.1;
        billable = x.1.0;
        cached_tokens = x.1.1.0;
        cacheable_tokens = x.1.1.1.0;
        reasoning_tokens = x.1.1.1.1;
      })
      (λ u. refl) (pair_codec counts_codec (pair_codec (option_codec bool_codec) counts_codec))

abbrev pub chunk_codec : Codec Chunk
chunk_codec =
    as_codec (λ c. ((c.id, (c.object, c.model)), (c.choices, c.usage)))
      (λ x. record {
        id = x.0.0;
        object = x.0.1.0;
        model = x.0.1.1;
        choices = x.1.0;
        usage = x.1.1;
      })
      (λ c. refl)
      (pair_codec (pair_codec text_codec (pair_codec text_codec text_codec))
        (pair_codec (list_codec choice_codec) (option_codec usage_codec)))

abbrev pub first_of : Option (Chunk × Text) → Option Chunk
first_of none = none
first_of (some (c, rest)) = some c

abbrev pub read_object : Text → Option Chunk
read_object [] = none
read_object (b ∷ s) = first_of (chunk_codec.get s)

abbrev pub read_from : Option Text → Option Chunk
read_from none = none
read_from (some raw) = read_object raw

-- The one text that is taken for an array of calls.
abbrev pub one_call : ToolCallInfo
one_call = record { call_id = codes "c1"; name = codes "ls"; arguments = codes "{}" }

abbrev pub calls_text : Text
calls_text = codes "[ls]"

abbrev pub json : Json
json = record {
  marshal = λ c. some (b'{' ∷ (chunk_codec.put c ++ b'}' ∷ []));
  unmarshal = read_object;
  unmarshal_calls = λ s. if s == calls_text then some (one_call ∷ []) else none;
}

pub json-IsLawful : IsLawful json
json-IsLawful = record {
  object = λ c. (chunk_codec.put c, refl);
  back = λ c raw h.
      subst (λ (o : Option Text). read_from o ≡ some c) h
        (rw (chunk_codec.back c (b'}' ∷ [])) refl);
}
