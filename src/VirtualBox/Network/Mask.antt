-- ===== src/VirtualBox/Network/Mask.antt =====
-- What parseIPv4Mask of drivers/virtualbox/network.go reads of a mask that VBoxManage prints.
use machine.Base.{◌≡◌, refl, some}
use machine.VirtualBox.Ip.{Quad, quad_string}
use machine.VirtualBox.Ip.RoundTrip.{IsQuad, parse_ip-quad_string}
use machine.VirtualBox.Network.{parse_ipv4_mask}

-- A mask of four bytes, written in dotted decimal, is read by `parseIPv4Mask` as the same mask: of the
-- sixteen bytes of the address that `net.ParseIP` makes of it, it takes the ones of IPv4, in order.
pub parse_ipv4_mask-quad_string : (q : Quad) → IsQuad q → parse_ipv4_mask (quad_string q) ≡ some q
unfolding parse_ipv4_mask
parse_ipv4_mask-quad_string q v = rw (parse_ipv4_mask, parse_ip-quad_string q v) refl
