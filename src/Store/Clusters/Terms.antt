-- ===== src/Store/Clusters/Terms.antt =====
-- store/cluster.go: the tags and the keywords of an observation.
use cogmemory.Base.{
  ℕ, Bool, ◌&&◌, ◌||◌, List, [], ◌∷◌, ◌++◌, Option, if◌then◌else◌, ◌==◌, leb, Bytes, codes, str_eq,
  trim_space, to_lower, is_space, is_empty, any, length, map,
}
use cogmemory.Regex.{◌▷◌, one, times, many, first, find_all}

abbrev between_tags : ℕ → Bool
between_tags c = c == b',' || is_space c

abbrev put_field : Bytes → List Bytes → List Bytes
put_field f fs = if is_empty f then fs else f ∷ fs

-- strings.FieldsFunc: the runs of bytes that are not between tags; `run` is the one so far.
unfoldable pub fields_from : Bytes → Bytes → List Bytes
unfolding is_space
fields_from run [] = put_field run []
fields_from run (c ∷ s) =
    if between_tags c then put_field run (fields_from [] s) else fields_from (run ++ (c ∷ [])) s

-- The words in order, each once, but for those that are left out.
unfoldable pub fresh : (Bytes → Bool) → List Bytes → List Bytes → List Bytes
unfolding str_eq
fresh out seen [] = []
fresh out seen (t ∷ ts) =
    if out t || any (λ u. str_eq u t) seen then fresh out seen ts else t ∷ fresh out (t ∷ seen) ts

-- The tags of parseClusterObs.
unfoldable pub cluster_tags : Bytes → List Bytes
unfolding fields_from fresh to_lower trim_space
cluster_tags s = fresh is_empty [] (map (λ t. to_lower (trim_space t)) (fields_from [] s))

abbrev is_letter : ℕ → Bool
is_letter c = (leb b'a' c && leb c b'z') || (leb b'A' c && leb c b'Z')

abbrev in_keyword : ℕ → Bool
in_keyword c = is_letter c || (leb b'0' c && leb c b'9') || c == b'_' || c == b'-'

-- keywordRE, `[A-Za-z][A-Za-z0-9_-]{3,}`, at the start of a text
unfoldable pub keyword_here : Bytes → Option (Bytes × ℕ)
unfolding one times many
keyword_here s = first (
    one is_letter s ▷ λ a s1. times 3 in_keyword s1 ▷ λ b s2.
    many in_keyword s2 ▷ λ c _. (a ++ (b ++ c), length (a ++ (b ++ c))) ∷ [])

abbrev pub stopwords : List Bytes
stopwords =
    codes "this"
    ∷ codes "that"
    ∷ codes "with"
    ∷ codes "from"
    ∷ codes "have"
    ∷ codes "will"
    ∷ codes "into"
    ∷ codes "been"
    ∷ codes "were"
    ∷ codes "their"
    ∷ codes "they"
    ∷ codes "what"
    ∷ codes "when"
    ∷ codes "then"
    ∷ codes "than"
    ∷ codes "there"
    ∷ codes "about"
    ∷ codes "which"
    ∷ codes "would"
    ∷ codes "could"
    ∷ codes "should"
    ∷ codes "after"
    ∷ codes "before"
    ∷ codes "still"
    ∷ codes "also"
    ∷ codes "just"
    ∷ codes "like"
    ∷ codes "some"
    ∷ codes "more"
    ∷ codes "most"
    ∷ codes "only"
    ∷ codes "your"
    ∷ codes "yours"
    ∷ codes "ours"
    ∷ codes "them"
    ∷ codes "http"
    ∷ codes "https"
    ∷ []

unfoldable pub is_stopword : Bytes → Bool
unfolding str_eq
is_stopword t = any (λ w. str_eq w t) stopwords

abbrev pub capture : ℕ × Bytes × ℕ → Bytes
capture (at, word, n) = word

-- The keywords of a text, in small letters, each once.
unfoldable pub keywords : Bytes → List Bytes
unfolding find_all keyword_here fresh is_stopword to_lower
keywords s = fresh is_stopword [] (map (λ m. to_lower (capture m)) (find_all keyword_here 0 0 s))
