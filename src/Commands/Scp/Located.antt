-- ===== src/Commands/Scp/Located.antt =====
-- The locations that commands/scp.go reads and writes.
use mathlib.Core.List.{append_assoc}
use machine.Base.{ℕ, ◌≡◌, refl, sym, ap, ◌∙◌, false, none, some, [], ◌∷◌, ◌++◌, arith}
use machine.Base.Exec.{ok, map_error, ◌>>=◌}
use machine.Text.{Text, bytes, text_eq}
use machine.Text.Bytes.{Lacks, Lacks-append}
use machine.Text.Scan.{split_two}
use machine.Errors.{Act, wrapped}
use machine.Driver.{Driver}
use machine.Host.{Host}
use machine.Commands.Scp.{
  load, named, arg_info, host_path_info, remote_info, user_and_host, nothing_in,
  generate_location_arg, get_info_for_scp_arg,
}

split_two-append :
    (sep : ℕ) (s t : Text) → Lacks sep s → split_two sep (s ++ (sep ∷ t)) ≡ (s, some t)
unfolding split_two
split_two-append sep [] t h = ground arith
split_two-append sep (c ∷ s) t (x, h) = rw (x, split_two-append sep s t h) refl

split_two-Lacks : (sep : ℕ) (s : Text) → Lacks sep s → split_two sep s ≡ (s, none)
unfolding split_two
split_two-Lacks sep [] h = refl
split_two-Lacks sep (c ∷ s) (x, h) = rw (x, split_two-Lacks sep s h) refl

user_and_host-written :
    (user hostname : Text)
    → Lacks b'@' user
    → user_and_host (user ++ (b'@' ∷ hostname)) ≡ (user, hostname)
unfolding user_and_host
user_and_host-written user hostname h = ap named (split_two-append b'@' user hostname h)

module _ {W : Type 0} (load_host : Text → Act W (Host (Driver W))) where
  -- A written location is taken apart into its three parts, and the host is loaded.
  get_info_for_scp_arg-written :
      (user hostname path : Text)
      → Lacks b'@' user
      → Lacks b':' user
      → Lacks b':' hostname
      → text_eq hostname (bytes "localhost") ≡ false
      → get_info_for_scp_arg load_host (user ++ (b'@' ∷ (hostname ++ (b':' ∷ path)))) ≡ (
          map_error (wrapped "Error loading host: ") (load load_host hostname) >>= λ h.
          remote_info h user path)
  unfolding get_info_for_scp_arg arg_info host_path_info
  get_info_for_scp_arg-written user hostname path no_at user_plain host_plain remote =
      let whole = user ++ (b'@' ∷ (hostname ++ (b':' ∷ path))) in
      let front = user ++ (b'@' ∷ hostname) in
      let front_plain = Lacks-append b':' user (b'@' ∷ hostname) user_plain (refl, host_plain) in
      ap (λ t. arg_info load_host whole (split_two b':' t))
        (sym (append_assoc user (b'@' ∷ hostname) (b':' ∷ path)))
      ∙ ap (arg_info load_host whole) (split_two-append b':' front path front_plain)
      ∙ ap (host_path_info load_host path) (user_and_host-written user hostname no_at)
      ∙ rw remote refl

  -- The location that is written for a host, with a user whose name has no `@` and no colon, and where
  -- the host's name for SSH has no colon and is not localhost, is read back as that user, that name of
  -- a host to load, and that path.
  pub generate_location_arg-read :
      (h : Driver W) (user hostname path : Text) (w : W)
      → (h.get_ssh_hostname w).0 ≡ ok hostname
      → nothing_in user ≡ false
      → Lacks b'@' user
      → Lacks b':' user
      → Lacks b':' hostname
      → text_eq hostname (bytes "localhost") ≡ false
      → (location : Text) × (((generate_location_arg (some h) user path w).0 ≡ ok location)
          × (get_info_for_scp_arg load_host location ≡ (
              map_error (wrapped "Error loading host: ") (load load_host hostname) >>= λ loaded.
              remote_info loaded user path)))
  unfolding generate_location_arg
  generate_location_arg-read h user hostname path w named_so given no_at user_plain host_plain
        remote =
      (
        user ++ (b'@' ∷ (hostname ++ (b':' ∷ path))),
        (
          rw (named_so, given) refl,
          get_info_for_scp_arg-written user hostname path no_at user_plain host_plain remote,
        ),
      )
