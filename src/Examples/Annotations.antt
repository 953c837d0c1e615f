-- ===== src/Examples/Annotations.antt =====
-- An encoding of string maps that is read back, in the place of encoding/json.
use kube_image_keeper.Prelude.{
  ◌≡◌, refl, ap, ◌∙◌, zero, suc, List, [], ◌∷◌, ◌++◌, Option, none, some,
}
use kube_image_keeper.Text.{Text}
use kube_image_keeper.Pods.{StringMap}
use kube_image_keeper.Webhook.Admission.{Json}

-- Each byte one higher, and a zero behind, before the rest.
write_text : Text → Text → Text
write_text [] rest = 0 ∷ rest
write_text (x ∷ xs) rest = suc x ∷ write_text xs rest

write_map : StringMap Text → Text
unfolding write_text
write_map [] = []
write_map ((k, v) ∷ m) = write_text k (write_text v (write_map m))

onto : Text → List Text → List Text
onto [] ts = ts
onto (x ∷ xs) [] = (x ∷ xs) ∷ []
onto (x ∷ xs) (t ∷ ts) = (x ∷ xs ++ t) ∷ ts

read_texts : Text → List Text
unfolding onto
read_texts [] = []
read_texts (zero ∷ xs) = [] ∷ read_texts xs
read_texts (suc x ∷ xs) = onto (x ∷ []) (read_texts xs)

pairs : List Text → StringMap Text
pairs [] = []
pairs (k ∷ []) = []
pairs (k ∷ v ∷ ts) = (k, v) ∷ pairs ts

read-write_text : (t rest : Text) → read_texts (write_text t rest) ≡ t ∷ read_texts rest
unfolding read_texts write_text
read-write_text [] rest = refl
read-write_text (x ∷ xs) rest = ap (onto (x ∷ [])) (read-write_text xs rest)

read-write_map : (m : StringMap Text) → pairs (read_texts (write_map m)) ≡ m
unfolding write_map pairs read_texts
read-write_map [] = refl
read-write_map ((k, v) ∷ m) =
    ap pairs (
      read-write_text k (write_text v (write_map m))
      ∙ ap (λ t. k ∷ t) (read-write_text v (write_map m)))
    ∙ ap (λ t. (k, v) ∷ t) (read-write_map m)

marshal_map : Option (StringMap Text) → Text
unfolding write_map
marshal_map none = []
marshal_map (some m) = 1 ∷ write_map m

unmarshal_map : Text → Option (StringMap Text)
unfolding read_texts pairs
unmarshal_map [] = none
unmarshal_map (x ∷ xs) = some (pairs (read_texts xs))

unfoldable pub json : Json
unfolding marshal_map unmarshal_map
json = record { unmarshal = unmarshal_map; marshal = marshal_map }

pub unmarshal-marshal : (o : Option (StringMap Text)) → json.unmarshal (json.marshal o) ≡ o
unfolding json
unmarshal-marshal none = refl
unmarshal-marshal (some m) = ap some (read-write_map m)
