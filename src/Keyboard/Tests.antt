-- ===== src/Keyboard/Tests.antt =====
-- The input queue on concrete keys.
use velora_os.Base.{◌≡◌, refl, [], ◌∷◌, ◌++◌, ok, arith, replicate}
use velora_os.Keyboard.{InputQueue, IsValid, handle_key, raw_key, page_up}
use velora_os.Keyboard.Laws.{Pushes, handle_key-Pushes, key_bytes, echoed}

-- Two unread bytes, across the end of the array.
abbrev two_bytes : InputQueue
two_bytes = record { bytes = 66 ∷ replicate 126 0 ++ (65 ∷ []); head = 127; len = 2 }

two_bytes-IsValid : IsValid two_bytes
two_bytes-IsValid = record { slots = refl; head_in = omega arith; len_in = omega arith }

handle_key-Pushes_example :
    (q' : InputQueue) × (handle_key (raw_key page_up) two_bytes ≡ ok (echoed (raw_key page_up), q'))
    × Pushes two_bytes (key_bytes (raw_key page_up)) q'
handle_key-Pushes_example = handle_key-Pushes (raw_key page_up) two_bytes two_bytes-IsValid
