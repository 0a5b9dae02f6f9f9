-- ===== src/Hash/Tests.antt =====
-- Runs of the hash on short buffers.
use theft.Base.{◌≡◌, refl, [], ◌∷◌, ◌++◌}
use theft.Hash.{init, sink, done, onepass}
use theft.Hash.Laws.{done-sink-sink}

onepass-nil : onepass [] ≡ 0xcbf29ce484222325
unfolding onepass
onepass-nil = refl

onepass_a : onepass (0x61 ∷ []) ≡ 0xaf63dc4c8601ec8c
unfolding onepass
onepass_a = refl

done-sink-sink_example :
    done (sink (sink init (1 ∷ [])) (2 ∷ [])) ≡ (onepass ((1 ∷ []) ++ (2 ∷ [])), init)
done-sink-sink_example = done-sink-sink (1 ∷ []) (2 ∷ [])
