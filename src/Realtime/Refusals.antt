-- ===== src/Realtime/Refusals.antt =====
-- Which connections are refused (`handleConnection` of
-- apps/api-gateway/src/modules/chat/chat.gateway.ts).
use crm_system_backend.Prelude.{
  ℕ, ◌≡◌, refl, Bool, true, not, ◌||◌, Option, none, some, List, [], ◌∷◌, any, All, is_some, ◌∙◌,
}
use crm_system_backend.Prelude.Text.{Text}
use crm_system_backend.Realtime.Cookies.{cons?}
use crm_system_backend.Realtime.Headers.{IsClean, header, decoded, parse_cookies-header}
use crm_system_backend.Realtime.{
  Socket, Handshake, unauthorized_packet, Library, authenticate, handle_connection,
}

abbrev pub is_unreadable : (Text → Option Text) → Text × Text → Bool
is_unreadable decode c = not (is_some (decode c.1))

undecoded :
    (decode : Text → Option Text) (cs : List (Text × Text))
    → any (is_unreadable decode) cs ≡ true
    → decoded decode cs ≡ none
undecoded decode [] h = cc
undecoded decode ((name, value) ∷ cs) h =
    by_rest (decode value) (decoded decode cs) h (undecoded decode cs)
  where
    by_rest :
        (o : Option Text) (rest : Option (List (Text × Text)))
        → (not (is_some o) || any (is_unreadable decode) cs) ≡ true
        → (any (is_unreadable decode) cs ≡ true → rest ≡ none)
        → cons? (elim o [ none ↦ none | some v ↦ some (name, v) ]) rest ≡ none
    by_rest none rest h ih = refl
    by_rest (some v) none h ih = refl
    by_rest (some v) (some es) h ih = cc (ih h)

-- If one cookie of the header cannot be decoded, whatever cookie it is, the connection is refused:
-- no socket is added and the browser is sent `Unauthorized`, also if the handshake or another
-- cookie has a valid token.
pub unreadable_cookie_refuses :
    (lib : Library) (now : ℕ) (h : Handshake) (c : Text × Text) (cs : List (Text × Text))
    (sockets : List Socket)
    → h.cookie_header ≡ some (header c cs)
    → All IsClean (c ∷ cs)
    → any (is_unreadable lib.decode) (c ∷ cs) ≡ true
    → handle_connection lib now h sockets ≡ (sockets, (h.id, unauthorized_packet) ∷ [])
unfolding handle_connection authenticate
unreadable_cookie_refuses lib now h c cs sockets sent clean broken =
    rw
      (
        sent,
        parse_cookies-header lib.decode c cs clean ∙ undecoded lib.decode (c ∷ cs) broken,
        authenticate,
        handle_connection,
      )
      refl
