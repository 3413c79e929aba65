-- ===== src/Wasi/Tests.antt =====
-- Two vectors written to the standard error: `Hi` and a newline.
use coraza_node.Base.{ℕ, ◌≡◌, ◌⊎◌, refl, List, [], ◌∷◌, ◌++◌, some, arith}
use coraza_node.Base.Words.{u32}
use coraza_node.Base.Text.{Text, codes}
use coraza_node.Wasi.{warn, write_fd, gather, get_uint32, set_uint32, without_newline}
use coraza_node.Wasi.Written.{IsRefused, IsReported, write_fd-IsWritten}

abbrev memory : List ℕ
memory = u32 20 ++ (u32 2 ++ (u32 22 ++ (u32 1 ++ (0 ∷ 0 ∷ 0 ∷ 0 ∷ b'H' ∷ b'i' ∷ b'\n' ∷ []))))

abbrev ascii : List ℕ → Text
ascii bytes = bytes

logged_line : (write_fd ascii memory 2 0 2 16).logged ≡ (warn, codes "Hi") ∷ []
unfolding write_fd gather get_uint32 set_uint32 without_newline u32
logged_line = refl

write_fd-IsWritten_example :
    (errno : ℕ) × (memory' : List ℕ) × ((write_fd ascii memory 2 0 2 16).result
      ≡ some (errno, memory'))
    × (IsRefused memory memory' 2 errno ⊎ IsReported memory memory' 2 0 2 16 errno)
unfolding u32
write_fd-IsWritten_example = write_fd-IsWritten ascii memory 2 0 2 16 (omega arith) (omega arith)
