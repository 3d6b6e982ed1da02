-- ===== src/Log/Pattern.antt =====
-- What the parser of patterns in src/log.cc makes of a pattern, against the syntax in which the
-- pattern was written.
use async_rpc.Base.{ℕ, ◌+◌, ◌==◌, arith, false, ◌≡◌, refl, ap, ◌∙◌}
use async_rpc.Base.{
  List, [], ◌∷◌, ◌++◌, length, length-append, take-append_self, append_assoc, append-nil, All,
}
use async_rpc.Base.{some}
use async_rpc.Log.{
  FormatItem, date_time_item, item_map, item_or_error, find_first_of, braces, date, directive,
  parse,
}

-- A pattern in parts: a character that stands for itself, `%c`, `%d`, and `%d{...}`.
pub data Token : Type 0 where
  literal conversion : ℕ → Token
  plain_date : Token
  date_of : List ℕ → Token

abbrev pub print_token : Token → List ℕ
print_token (literal c) = c ∷ []
print_token (conversion c) = b'%' ∷ (c ∷ [])
print_token plain_date = b'%' ∷ (b'd' ∷ [])
print_token (date_of s) = b'%' ∷ (b'd' ∷ (b'{' ∷ (s ++ b'}' ∷ [])))

abbrev pub print : List Token → List ℕ
print [] = []
print (t ∷ ts) = print_token t ++ print ts

-- The items that a part stands for.
abbrev pub token_items : Token → List FormatItem
token_items (literal c) = []
token_items (conversion c) = item_or_error c (item_map c (c ∷ [])) ∷ []
token_items plain_date = date_time_item [] ∷ []
token_items (date_of s) = date_time_item s ∷ []

abbrev pub items : List Token → List FormatItem
items [] = []
items (t ∷ ts) = token_items t ++ items ts

abbrev pub token_text : Token → List ℕ
token_text (literal c) = c ∷ []
token_text _ = []

abbrev pub texts : List Token → List ℕ
texts [] = []
texts (t ∷ ts) = token_text t ++ texts ts

-- What may stand behind `%d`.
abbrev pub NoBrace : List ℕ → Type 0
NoBrace [] = ⊥
NoBrace (c ∷ cs) = (c == b'{') ≡ false

abbrev pub Other : ℕ → ℕ → Type 0
Other b x = (x == b) ≡ false

-- The part can be told apart from what follows it.
abbrev pub Clear : Token → List ℕ → Type 0
Clear (literal c) rest = Other b'%' c
Clear (conversion c) rest = Other b'd' c
Clear plain_date rest = NoBrace rest
Clear (date_of s) rest = All (Other b'}') s

abbrev pub IsClear : List Token → Type 0
IsClear [] = Unit
IsClear (t ∷ ts) = Clear t (print ts) × IsClear ts

parse-skip : (xs ys str : List ℕ) → parse (length xs) (xs ++ ys) str ≡ parse 0 ys str
unfolding parse
parse-skip [] ys str = refl
parse-skip (x ∷ xs) ys str = parse-skip xs ys str

parse-percent :
    (cs str : List ℕ)
    → parse 0 (b'%' ∷ cs) str
      ≡ ((directive cs).0 ++ (parse (directive cs).1 cs str).0, (parse (directive cs).1 cs str).1)
unfolding parse
parse-percent cs str = refl

find_first_of-append :
    (b : ℕ) (xs ys : List ℕ) → All (Other b) xs → find_first_of b (xs ++ b ∷ ys) ≡ some (length xs)
unfolding find_first_of
find_first_of-append b [] ys free = ground arith
find_first_of-append b (x ∷ xs) ys free = ground (arith, find_first_of-append b xs ys free.1)

braces-append :
    (s rest : List ℕ)
    → All (Other b'}') s
    → braces (s ++ b'}' ∷ rest) ≡ (date_time_item s ∷ [], length s + 3)
unfolding braces
braces-append [] rest free = rw (find_first_of-append b'}' [] rest free) refl
braces-append (c ∷ s) rest free =
    rw (find_first_of-append b'}' (c ∷ s) rest free, take-append_self s (b'}' ∷ rest)) refl

-- A directive that takes `taken` behind the '%', and what it adds in front of the rest.
directive-parse :
    (taken rest str : List ℕ) (is : List FormatItem)
    → directive (taken ++ rest) ≡ (is, length taken)
    → parse 0 (b'%' ∷ (taken ++ rest)) str ≡ (is ++ (parse 0 rest str).0, (parse 0 rest str).1)
directive-parse taken rest str is h =
    parse-percent (taken ++ rest) str ∙ rw (h, parse-skip taken rest str) refl

conversion-directive :
    (c : ℕ) (rest : List ℕ)
    → Other b'd' c
    → directive (c ∷ rest) ≡ (item_or_error c (item_map c (c ∷ [])) ∷ [], 1)
unfolding directive
conversion-directive c rest other = rw other refl

plain_date-directive :
    (rest : List ℕ) → NoBrace rest → directive (b'd' ∷ rest) ≡ (date_time_item [] ∷ [], 1)
unfolding directive date
plain_date-directive [] free = absurd free
plain_date-directive (c ∷ rest) free = rw free refl

date_of-directive :
    (s rest : List ℕ)
    → All (Other b'}') s
    → directive (b'd' ∷ (b'{' ∷ ((s ++ b'}' ∷ []) ++ rest)))
      ≡ (date_time_item s ∷ [], length (b'd' ∷ (b'{' ∷ (s ++ b'}' ∷ []))))
unfolding directive date
date_of-directive s rest free =
    ap braces (append_assoc s (b'}' ∷ []) rest)
    ∙ braces-append s rest free
    ∙ ap (λ n. (date_time_item s ∷ [], n)) (omega (arith, length-append s (b'}' ∷ [])))

token-parse :
    (t : Token) (rest str : List ℕ)
    → Clear t rest
    → parse 0 (print_token t ++ rest) str ≡ (
      token_items t ++ (parse 0 rest (str ++ token_text t)).0,
      (parse 0 rest (str ++ token_text t)).1,
    )
token-parse (literal c) rest str h = unfold parse in rw h refl
token-parse (conversion c) rest str h =
    rw (append-nil str) (directive-parse (c ∷ []) rest str _ (conversion-directive c rest h))
token-parse plain_date rest str h =
    rw (append-nil str) (directive-parse (b'd' ∷ []) rest str _ (plain_date-directive rest h))
token-parse (date_of s) rest str h =
    rw (append-nil str)
      (directive-parse (b'd' ∷ (b'{' ∷ (s ++ b'}' ∷ []))) rest str _ (date_of-directive s rest h))

-- For a pattern printed from parts that can be told apart from what follows them: the parser adds
-- exactly the items of the directives in their order; the characters that stand for themselves go
-- into str in their order, which no item is made of.
pub parse-print :
    (ts : List Token) (str : List ℕ)
    → IsClear ts
    → parse 0 (print ts) str ≡ (items ts, str ++ texts ts)
parse-print [] str h = unfold parse in rw (append-nil str) refl
parse-print (t ∷ ts) str h =
    token-parse t (print ts) str h.0
    ∙ rw (parse-print ts (str ++ token_text t) h.1, append_assoc str (token_text t) (texts ts)) refl

-- The pattern with its plain characters left out.
abbrev pub directives : List Token → List Token
directives [] = []
directives (literal c ∷ ts) = directives ts
directives (t ∷ ts) = t ∷ directives ts
