-- ===== src/AmazonEc2/Groups/Cluster.antt =====
-- The group that configureSecurityGroups of drivers/amazonec2/amazonec2.go makes for the nodes.
use machine.Base.{List}
use machine.Text.{Text}
use machine.AmazonEc2.{AmazonEc2}
