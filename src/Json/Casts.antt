-- ===== src/Json/Casts.antt =====
-- Python's `dict(value)` and `list(value)` of the values of JSON documents.

use cavi_erp.Prelude.{String, Bool, true, false, ◌&&◌, [], string_eq}
use cavi_erp.Dict.{put}
use cavi_erp.Json.{
  Value, Object, Items, Fields, null, bool, int, str, arr, obj, nil, cons, end, field, to_dict,
}
use cavi_erp.Error.{Error, Result, ok, err, ◌>>=◌}

wrong_length : Error
wrong_length = Error.value_error "dictionary update sequence element has a length that is not 2"

not_iterable : Error
not_iterable = Error.type_error "object is not iterable"

-- A key of `dict`; one that is a number, a Boolean or null has no place in an `Object`.
key_of : Value → Result String
key_of (str s) = ok s
key_of _ = err (Error.type_error "unhashable type, or a key that is no text")

-- The pair that an element of a sequence stands for.
pair_of : Value → Result (String × Value)
unfolding key_of wrong_length not_iterable
pair_of (arr (cons k (cons v nil))) = key_of k >>= λ key. ok (key, v)
pair_of (arr _) = err wrong_length
pair_of (str (String.◌∷◌ c (String.◌∷◌ d String.[]))) = ok (String.◌∷◌ c "", str (String.◌∷◌ d ""))
pair_of (str _) = err wrong_length
pair_of (obj (field k v (field l w end))) = ok (k, str l)
pair_of (obj _) = err wrong_length
pair_of _ = err not_iterable

pairs : Items → Object → Result Object
unfolding pair_of
pairs nil d = ok d
pairs (cons x xs) d = pair_of x >>= λ (k, v). pairs xs (put k v d)

-- `dict(value)`
unfoldable pub dict_of : Value → Result Object
unfolding pairs wrong_length not_iterable
dict_of (obj fs) = ok (to_dict fs)
dict_of (arr xs) = pairs xs []
dict_of (str String.[]) = ok []
dict_of (str (String.◌∷◌ c s)) = err wrong_length
dict_of _ = err not_iterable

is_keyed_item : Value → Bool
is_keyed_item (arr (cons null (cons v nil))) = false
is_keyed_item (arr (cons (bool b) (cons v nil))) = false
is_keyed_item (arr (cons (int n) (cons v nil))) = false
is_keyed_item _ = true

all_keyed : Items → Bool
unfolding is_keyed_item
all_keyed nil = true
all_keyed (cons x xs) = is_keyed_item x && all_keyed xs

-- No pair of a list of pairs has a number, a Boolean or null as its key.
unfoldable pub has_text_keys : Value → Bool
unfolding all_keyed
has_text_keys (arr xs) = all_keyed xs
has_text_keys _ = true

characters : String → Items
characters String.[] = nil
characters (String.◌∷◌ c s) = cons (str (String.◌∷◌ c "")) (characters s)

field_names : Fields → Items
field_names end = nil
field_names (field k v fs) = cons (str k) (field_names fs)

-- `list(value)`
unfoldable pub list_of : Value → Result Items
unfolding characters field_names not_iterable
list_of (arr xs) = ok xs
list_of (str s) = ok (characters s)
list_of (obj fs) = ok (field_names fs)
list_of _ = err not_iterable
