-- ===== src/Provision/ConfigureAuth/Serves.antt =====
-- What the success of ConfigureAuth of libmachine/provision/utils.go guarantees.
use machine.Base.{◌≡◌, refl, sym, ap, ◌∙◌, [], ◌++◌, ◌∷◌}
use machine.Base.Int.{ℤ}
use machine.Base.Exec.{Result, ok, err, continue, map_err, map_error, ◌>>=◌, ◌>>◌}
use machine.Text.{Text, bytes}
use machine.Errors.{Error, wrapped, Act}
use machine.Options.{AuthOptions}
use machine.Provision.{start, stop, wait_for_docker}
use machine.Provision.ConfigureAuth.{
  Setup, CertOptions, command, copy_certs, generate_server_cert, server_cert_options, upload_certs,
  transfer_command, delete_bridge_command, options_command, docker_port, start_daemon,
  install_certs, configure_auth,
}
use machine.Text.FilePath.{dir, join}

module _ {W : Type 0} (s : Setup W) where
  abbrev auth : AuthOptions
  auth = s.auth_options

  -- The three files of the client are copied to the directory of the machine, one after another, from
  -- `w` on; the last copy leaves the world `w'`.
  pub record Copied (w w' : W) : Type 0 where
    pub w1 : W
    pub w2 : W
    pub ca :
        s.copy_file auth.ca_cert_path (join (auth.store_path ∷ bytes "ca.pem" ∷ [])) w ≡ (ok tt, w1)
    pub cert :
        s.copy_file auth.client_cert_path (join (auth.store_path ∷ bytes "cert.pem" ∷ [])) w1
        ≡ (ok tt, w2)
    pub key :
        s.copy_file auth.client_key_path (join (auth.store_path ∷ bytes "key.pem" ∷ [])) w2
        ≡ (ok tt, w')

  -- The certificate of the authority, that of the server and its key are read, and their contents are
  -- then written on the machine by commands that succeed.
  pub record Uploaded (w w' : W) : Type 0 where
    pub ca_cert : Text
    pub server_cert : Text
    pub server_key : Text
    pub w1 : W
    pub w2 : W
    pub w3 : W
    pub w4 : W
    pub w5 : W
    pub read_ca : s.read_file auth.ca_cert_path w ≡ (ok ca_cert, w1)
    pub read_cert : s.read_file auth.server_cert_path w1 ≡ (ok server_cert, w2)
    pub read_key : s.read_file auth.server_key_path w2 ≡ (ok server_key, w3)
    pub sent_ca : command s (transfer_command ca_cert auth.ca_cert_remote_path) w3 ≡ (ok tt, w4)
    pub sent_cert :
        command s (transfer_command server_cert auth.server_cert_remote_path) w4 ≡ (ok tt, w5)
    pub sent_key :
        command s (transfer_command server_key auth.server_key_remote_path) w5 ≡ (ok tt, w')

  -- The steps of the certificates, from the world `w` to the world `w'`.
  pub record Installed (org : Text) (w w' : W) : Type 0 where
    pub ip : Text
    pub w1 : W
    pub w2 : W
    pub w3 : W
    pub w4 : W
    pub w5 : W
    pub ip_told : s.driver.get_ip w ≡ (ok ip, w1)
    pub copied : Copied w1 w2
    pub options : CertOptions
    pub made : s.generate_cert options w2 ≡ (ok tt, w3)
    pub for_names : options.hosts ≡ auth.server_cert_sans ++ (ip ∷ bytes "localhost" ∷ [])
    pub for_org : options.org ≡ org
    pub written_to :
        (options.cert_file ≡ auth.server_cert_path) × (options.key_file ≡ auth.server_key_path)
    pub signed_with :
        (options.ca_file ≡ auth.ca_cert_path) × (options.ca_key_file ≡ auth.ca_private_key_path)
    pub docker_stopped : s.provisioner.service_action (bytes "docker") stop w3 ≡ (ok tt, w4)
    pub bridge_deleted : command s delete_bridge_command w4 ≡ (ok tt, w5)
    pub uploaded : Uploaded w5 w'

  -- The certificates were installed for the user and the machine, then the driver has told the port,
  -- and at that port Docker was waited for, last of all.
  pub record Serves (w : W) : Type 0 where
    pub w1 : W
    pub w2 : W
    pub installed :
        let (machine_name, v) = s.driver.get_machine_name w in
        let (user, begun) = s.username v in Installed (user ++ (b'.' ∷ machine_name)) begun w1
    pub port : ℤ
    pub told : docker_port s w1 ≡ (ok port, w2)
    pub waited_from : W
    pub waited : wait_for_docker s.sleep s.provisioner port waited_from ≡ configure_auth s w
    pub serving : (wait_for_docker s.sleep s.provisioner port waited_from).0 ≡ ok tt

  -- What comes first, and what comes last, in a chain that succeeds.
  record Parts {A B : Type 0} (m : Act W A) (f : A → Act W B) (w : W) (b : B) (v : W) : Type 0 where
    got : A
    world : W
    first : m w ≡ (ok got, world)
    rest : f got world ≡ (ok b, v)

  Parts-bind :
      {A B : Type 0} (m : Act W A) (f : A → Act W B) (w : W) (b : B) (v : W)
      → (m >>= f) w ≡ (ok b, v)
      → Parts m f w b v
  Parts-bind {A = A} {B = B} m f w b v e = go (m w).0 (m w).1 refl e
    where
      go :
          (r : Result Error A) (u : W) → m w ≡ (r, u) → continue r f u ≡ (ok b, v) → Parts m f w b v
      go (ok a) u e k = record { got = a; world = u; first = e; rest = k }
      go (err x) u e k = cc

  Parts-then :
      {A : Type 0} (m : Act W A) (n : Act W (Unit {0})) (w v : W)
      → (m >> n) w ≡ (ok tt, v)
      → Parts m (λ _. n) w tt v
  Parts-then m n w v e = Parts-bind m (λ _. n) w tt v e

  unwrapped :
      (f : Error → Error) (m : Act W (Unit {0})) (w v : W) (a : Unit {0})
      → map_error f m w ≡ (ok a, v)
      → m w ≡ (ok tt, v)
  unwrapped f m w v a e = go (m w).0 (m w).1 e
    where
      go :
          (r : Result Error (Unit {0})) (u : W)
          → ◌≡◌ {A = Result Error (Unit {0}) × W} (map_err f r, u) (ok a, v)
          → ◌≡◌ {A = Result Error (Unit {0}) × W} (r, u) (ok tt, v)
      go (ok a) u k = k
      go (err x) u k = cc

  copy_certs-Copied : (w v : W) → copy_certs s w ≡ (ok tt, v) → Copied w v
  unfolding copy_certs
  copy_certs-Copied w v e =
      let ca = s.copy_file auth.ca_cert_path (join (auth.store_path ∷ bytes "ca.pem" ∷ [])) in
      let cert =
        s.copy_file auth.client_cert_path (join (auth.store_path ∷ bytes "cert.pem" ∷ [])) in
      let key = s.copy_file auth.client_key_path (join (auth.store_path ∷ bytes "key.pem" ∷ [])) in
      let f1 : Error → Error = wrapped "Copying ca.pem to machine dir failed: " in
      let f2 : Error → Error = wrapped "Copying cert.pem to machine dir failed: " in
      let f3 : Error → Error = wrapped "Copying key.pem to machine dir failed: " in
      let p = Parts-then (map_error f1 ca) (map_error f2 cert >> map_error f3 key) w v e in
      let q = Parts-then (map_error f2 cert) (map_error f3 key) p.world v p.rest in
      record {
        w1 = p.world;
        w2 = q.world;
        ca = unwrapped f1 ca w p.world p.got p.first;
        cert = unwrapped f2 cert p.world q.world q.got q.first;
        key = unwrapped f3 key q.world v tt q.rest;
      }

  upload_certs-Uploaded : (w v : W) → upload_certs s w ≡ (ok tt, v) → Uploaded w v
  unfolding upload_certs
  upload_certs-Uploaded w v e =
      let p =
        Parts-bind (s.read_file auth.ca_cert_path)
          (λ ca. s.read_file auth.server_cert_path >>= λ cert.
            s.read_file auth.server_key_path >>= λ key.
            send_ca ca >> (send_cert cert >> send_key key))
          w tt v e in
      let q =
        Parts-bind (s.read_file auth.server_cert_path)
          (λ cert. s.read_file auth.server_key_path >>= λ key.
            send_ca p.got >> (send_cert cert >> send_key key))
          p.world tt v p.rest in
      let r =
        Parts-bind (s.read_file auth.server_key_path)
          (λ key. send_ca p.got >> (send_cert q.got >> send_key key)) q.world tt v q.rest in
      let a = Parts-then (send_ca p.got) (send_cert q.got >> send_key r.got) r.world v r.rest in
      let b = Parts-then (send_cert q.got) (send_key r.got) a.world v a.rest in
      record {
        ca_cert = p.got;
        server_cert = q.got;
        server_key = r.got;
        w1 = p.world;
        w2 = q.world;
        w3 = r.world;
        w4 = a.world;
        w5 = b.world;
        read_ca = p.first;
        read_cert = q.first;
        read_key = r.first;
        sent_ca = a.first;
        sent_cert = b.first;
        sent_key = b.rest;
      }
    where
      send_ca : Text → Act W (Unit {0})
      send_ca c = command s (transfer_command c auth.ca_cert_remote_path)

      send_cert : Text → Act W (Unit {0})
      send_cert c = command s (transfer_command c auth.server_cert_remote_path)

      send_key : Text → Act W (Unit {0})
      send_key c = command s (transfer_command c auth.server_key_remote_path)

  install_certs-Installed :
      (org : Text) (w v : W) → install_certs s org w ≡ (ok tt, v) → Installed org w v
  unfolding install_certs generate_server_cert
  install_certs-Installed org w v e =
      let down = s.provisioner.service_action (bytes "docker") stop in
      let no_bridge = command s delete_bridge_command in
      let p =
        Parts-bind s.driver.get_ip
          (λ ip.
            copy_certs s
            >> (generate_server_cert s org ip >> (down >> (no_bridge >> upload_certs s))))
          w tt v e in
      let made = generate_server_cert s org p.got in
      let c =
        Parts-then (copy_certs s) (made >> (down >> (no_bridge >> upload_certs s))) p.world v
          p.rest in
      let g = Parts-then made (down >> (no_bridge >> upload_certs s)) c.world v c.rest in
      let d = Parts-then down (no_bridge >> upload_certs s) g.world v g.rest in
      let b = Parts-then no_bridge (upload_certs s) d.world v d.rest in
      record {
        ip = p.got;
        w1 = p.world;
        w2 = c.world;
        w3 = g.world;
        w4 = d.world;
        w5 = b.world;
        ip_told = p.first;
        copied = copy_certs-Copied p.world c.world c.first;
        options = server_cert_options s org p.got;
        made =
            unwrapped (wrapped "error generating server cert: ")
              (s.generate_cert (server_cert_options s org p.got)) c.world g.world g.got g.first;
        for_names = refl;
        for_org = refl;
        written_to = (refl, refl);
        signed_with = (refl, refl);
        docker_stopped = d.first;
        bridge_deleted = b.first;
        uploaded = upload_certs-Uploaded b.world v b.rest;
      }

  start_daemon-waits :
      (port : ℤ) (w v : W)
      → start_daemon s port w ≡ (ok tt, v)
      → (u : W) × (wait_for_docker s.sleep s.provisioner port u ≡ (ok tt, v))
  unfolding start_daemon
  start_daemon-waits port w v e =
      let up = s.provisioner.service_action (bytes "docker") start in
      let waits = wait_for_docker s.sleep s.provisioner port in
      let p =
        Parts-bind (s.generate_docker_options port)
          (λ dkrcfg.
            command s (options_command (dir dkrcfg.engine_options_path) dkrcfg) >> (up >> waits))
          w tt v e in
      let sent = command s (options_command (dir p.got.engine_options_path) p.got) in
      let q = Parts-then sent (up >> waits) p.world v p.rest in
      let r = Parts-then up waits q.world v q.rest in (r.world, r.rest)

  -- When `ConfigureAuth` succeeds, these have succeeded, one after another: the certificates and the
  -- key of the client were copied to the directory of the machine; a certificate of the server was
  -- made for the names that were asked for, the address of the machine and localhost; Docker was
  -- stopped; the certificates of the authority and of the server, and the key of the server, were
  -- read and written on the machine; the driver has told the port of Docker in its URL; and, last of all, Docker was waited for at that
  -- port.
  pub configure_auth-Serves : (w : W) → (configure_auth s w).0 ≡ ok tt → Serves w
  unfolding configure_auth
  configure_auth-Serves w h =
      let (machine_name, u) = s.driver.get_machine_name w in
      let (user, begun) = s.username u in
      let org = user ++ (b'.' ∷ machine_name) in
      let v = (configure_auth s w).1 in
      let e : configure_auth s w ≡ (ok tt, v) = ap (λ (r : Result Error (Unit {0})). (r, v)) h in
      let p = Parts-then (install_certs s org) (docker_port s >>= start_daemon s) begun v e in
      let q = Parts-bind (docker_port s) (start_daemon s) p.world tt v p.rest in
      let (from, waited) = start_daemon-waits q.got q.world v q.rest in
      record {
        w1 = p.world;
        w2 = q.world;
        installed = install_certs-Installed org begun p.world p.first;
        port = q.got;
        told = q.first;
        waited_from = from;
        waited = waited ∙ sym e;
        serving = ap (λ r. r.0) waited;
      }
