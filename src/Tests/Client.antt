-- ===== src/Tests/Client.antt =====
-- The desktop shell with a few arguments, and the theorems on it there.
use chat_serve.Base.{◌≡◌, refl, ◌↔◌, false, true, List, [], ◌∷◌, Option, some}
use chat_serve.Text.{Text, lit, starts_with}
use chat_serve.Client.{
  flag_value, raw_server, resolve_server, strip_slashes, on_certificate_error,
  on_certificate_error_lem, IsOneHost,
}

abbrev argv : List Text
argv = lit "electron" ∷ lit "--server=https://chat//" ∷ lit "--server=x" ∷ []

resolved : resolve_server argv (lit "https://env") ≡ lit "https://chat"
unfolding resolve_server raw_server flag_value strip_slashes starts_with
resolved = refl

-- Every address is on one host.
abbrev one_host : Text → Option Text
one_host url = some (lit "chat")

on_certificate_error_example :
    ((on_certificate_error one_host (lit "https://chat") (lit "https://chat/ws") ≡ (true, true))
      ↔ IsOneHost (some (lit "chat")) (some (lit "chat")))
    × ((on_certificate_error one_host (lit "https://chat") (lit "https://chat/ws") ≡ (false, false))
        ↔ ¬ IsOneHost (some (lit "chat")) (some (lit "chat")))
on_certificate_error_example =
    on_certificate_error_lem one_host (lit "https://chat") (lit "https://chat/ws")
